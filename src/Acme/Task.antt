-- ===== src/Acme/Task.antt =====
-- src/acme/renewal.rs: `AcmeConfig::from_server_config` and the loop of `RenewalTask::spawn`.
use rustasgi.Base.{
  is_empty, ℕ, ◌+◌, ◌%◌, ◌^◌, Bool, true, false, not, ◌||◌, List, [], ◌∷◌, Option, none, some,
  if◌then◌else◌, Result, ok, err,
}
use rustasgi.Base.Text.{codes, strip_prefix}
use rustasgi.Cli.{ServerConfig, is_some}
use rustasgi.Message.{get_or}
use rustasgi.Tls.Config.{TlsLib}
use rustasgi.Acme.Install.{Paths}
use rustasgi.Acme.Account.{AcmeClient, join}
use rustasgi.Acme.Due.{ℤ}
use rustasgi.Acme.Renewal.{
  RenewError, AcmeConfig, Site, Order, needs, generate_and_install, try_acme_issuance,
}

unfoldable pub from_server_config : ServerConfig → Option AcmeConfig
from_server_config cfg =
    if is_empty cfg.acme_domains || not (is_some cfg.acme_email)
    then none
    else some (record {
      directory_url =
          get_or cfg.acme_directory (codes "https://acme-v02.api.letsencrypt.org/directory");
      email = get_or cfg.acme_email [];
      domains = cfg.acme_domains;
      storage_dir = get_or cfg.acme_dir (codes "./acme");
      renew_threshold_days = 30;
    })

abbrev starts_with : List ℕ → List ℕ → Bool
starts_with p s = elim (strip_prefix p s) [ some _ ↦ true | none ↦ false ]

-- `s.contains(p)` for a text.
contains_text : List ℕ → List ℕ → Bool
contains_text p [] = is_empty p
contains_text p (c ∷ s) = starts_with p (c ∷ s) || contains_text p s

-- The directory stands for self-signed certificates.
unfoldable pub is_mock : List ℕ → Bool
unfolding contains_text
is_mock url = contains_text (codes "mock") url || is_empty url

-- The files of a storage directory, with `with_extension` of `atomic_install`.
unfoldable pub paths_of : List ℕ → Paths
paths_of dir = record {
  cert = join dir (codes "cert.pem");
  key = join dir (codes "key.pem");
  cert_tmp = join dir (codes "cert.pem.tmp");
  key_tmp = join dir (codes "key.key.tmp");
}

-- The metrics that the task counts: C_ACME_ORDERS, C_ACME_RENEWALS, C_ACME_RENEWAL_FAILURES.
pub record Counters : Type 0 where
  pub orders : ℕ
  pub renewals : ℕ
  pub failures : ℕ

-- `metrics::inc` on an `AtomicU64`, if metrics are enabled.
abbrev pub inc : Bool → ℕ → ℕ
inc enabled n = if enabled then (n + 1) % 2 ^ 64 else n

abbrev pub inc_renewals : Bool → Counters → Counters
inc_renewals enabled c = record c { renewals = inc enabled c.renewals }

abbrev pub inc_failures : Bool → Counters → Counters
inc_failures enabled c = record c { failures = inc enabled c.failures }

-- What one round of the loop meets: the clock, and the ACME server.
pub record Hour : Type 0 where
  pub now : ℕ
  pub order : Order

module _ (lib : TlsLib) (x509_ok : List ℕ → Bool) (not_after : List ℕ → Option ℤ) where
  abbrev pub Round : Type 0
  Round = Counters × Site lib

  self_signed : Bool → Counters → Site lib × Result RenewError (Unit {0}) → Round
  self_signed enabled c (s, ok u) = (inc_renewals enabled c, s)
  self_signed enabled c (s, err e) = (inc_failures enabled c, s)

  -- `renew_self_signed`, and the report of its failure.
  unfoldable pub renew_self_signed : Bool → Paths → Order → Counters → Site lib → Round
  unfolding self_signed
  renew_self_signed enabled p o c s =
      self_signed enabled c (generate_and_install lib x509_ok p o.generated o.weather s)

  unfoldable pub issued :
      Bool → Counters → Option (Site lib × Result RenewError (Unit {0})) → Option Round
  issued enabled c none = none
  issued enabled c (some (s, ok u)) = some (c, s)
  issued enabled c (some (s, err e)) = some (inc_failures enabled (inc_failures enabled c), s)

  module _ (client : AcmeClient) where
    -- An ACME order, and the two reports of its failure.
    unfoldable pub renew_acme :
        Bool → AcmeConfig → Paths → Order → Counters → Site lib → Option Round
    unfolding issued
    renew_acme enabled cfg p o c s =
        issued enabled c (try_acme_issuance lib x509_ok client cfg p o s)

    unfoldable pub renewal_round : Bool → AcmeConfig → Hour → Counters → Site lib → Option Round
    renewal_round enabled cfg h c s =
        let p = paths_of cfg.storage_dir in
        if needs lib not_after (s.disk p.cert) h.now cfg.renew_threshold_days
        then (let counted : Counters = record c { orders = inc enabled c.orders } in
            if is_mock cfg.directory_url
            then some (renew_self_signed enabled p h.order counted s)
            else renew_acme enabled cfg p h.order counted s)
        else some (c, s)

    -- The rounds of the endless loop, as far as the list goes.
    unfoldable pub renewal_loop : Bool → AcmeConfig → List Hour → Round → Option Round
    renewal_loop enabled cfg [] r = some r
    renewal_loop enabled cfg (h ∷ hs) r = elim (renewal_round enabled cfg h r.0 r.1) [
      | none ↦ none
      | some r' ↦ renewal_loop enabled cfg hs r'
    ]
