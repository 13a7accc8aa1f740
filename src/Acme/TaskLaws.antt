-- ===== src/Acme/TaskLaws.antt =====
-- When renewal runs, and what it counts (src/acme/renewal.rs, src/cli.rs).
use rustasgi.Base.{
  ℕ, ◌+◌, ◌*◌, ◌%◌, ◌^◌, ◌<◌, ◌≤◌, ◌≡◌, ◌≢◌, ◌↔◌, Bool, true, false, List, [], ◌∷◌, Option, none,
  some, Result, ok, err, Option-cases, Bool-cases, ◌∙◌, inl, inr, arith, length,
}
use rustasgi.Cli.{ServerConfig, is_acme_enabled}
use rustasgi.Tls.Config.{TlsLib}
use rustasgi.Acme.Account.{AcmeClient}
use rustasgi.Acme.Due.{ℤ}
use rustasgi.Acme.Renewal.{AcmeConfig, Site, try_acme_issuance, RenewError, needs}
use rustasgi.Acme.Task.{
  paths_of, from_server_config, is_mock, Counters, Hour, Round, renew_acme, renewal_round,
  renewal_loop, issued, inc,
}

-- The log line at startup and the renewal task agree: ACME is announced as enabled exactly if the
-- task gets a configuration.
pub from_server_config_iff :
    (cfg : ServerConfig) → (is_acme_enabled cfg ≡ true) ↔ (from_server_config cfg ≢ none)
unfolding is_acme_enabled from_server_config
from_server_config_iff cfg = ground arith

module _ (lib : TlsLib) (x509_ok : List ℕ → Bool) (not_after : List ℕ → Option ℤ) where
  -- From the counters c to d no renewal is counted, and at most k times two failures.
  abbrev pub IsDoubled : ℕ → Counters → Counters → Type 0
  IsDoubled k c d =
      (d.renewals ≡ c.renewals)
      × (d.failures < 2 ^ 64)
      × ((n : ℕ) × (n ≤ k) × (d.failures ≡ (c.failures + 2 * n) % 2 ^ 64))

  issued-IsDoubled :
      (enabled : Bool) (c : Counters) (o : Option (Site lib × Result RenewError (Unit {0})))
      (r : Round lib x509_ok not_after)
      → c.failures < 2 ^ 64
      → issued lib x509_ok not_after enabled c o ≡ some r
      → IsDoubled 1 c r.0
  unfolding issued
  issued-IsDoubled enabled c none r b h = cc
  issued-IsDoubled enabled c (some (s, ok u)) r b h =
      (ground arith, ground arith, (0, omega arith, ground arith))
  issued-IsDoubled true c (some (s, err e)) r b h =
      (ground arith, ground arith, (1, omega arith, ground arith))
  issued-IsDoubled false c (some (s, err e)) r b h =
      (ground arith, ground arith, (0, omega arith, ground arith))

  module _ (client : AcmeClient) where
    round-IsDoubled :
        (enabled : Bool) (cfg : AcmeConfig) (h : Hour) (c : Counters) (s : Site lib)
        (r : Round lib x509_ok not_after)
        → is_mock cfg.directory_url ≡ false
        → c.failures < 2 ^ 64
        → renewal_round lib x509_ok not_after client enabled cfg h c s ≡ some r
        → IsDoubled 1 c r.0
    unfolding renewal_round renew_acme
    round-IsDoubled enabled cfg h c s r m b e =
        elim (Bool-cases (
          needs lib not_after (s.disk (paths_of cfg.storage_dir).cert) h.now
            cfg.renew_threshold_days)) [
              | inl due ↦
                  issued-IsDoubled enabled (record c { orders = inc enabled c.orders })
                    (try_acme_issuance lib x509_ok client cfg (paths_of cfg.storage_dir) h.order s)
                    r b (ground arith)
              | inr fresh ↦ (ground arith, ground arith, (0, omega arith, ground arith))
            ]

    -- With a real ACME directory the loop never counts a renewal, whether its orders succeed or not,
    -- and after k rounds it has counted, modulo 2^64, an even number of failures, at most 2 k.
    pub renewal_loop-IsDoubled :
        (enabled : Bool) (cfg : AcmeConfig) (hs : List Hour) (q r : Round lib x509_ok not_after)
        → is_mock cfg.directory_url ≡ false
        → q.0.failures < 2 ^ 64
        → renewal_loop lib x509_ok not_after client enabled cfg hs q ≡ some r
        → IsDoubled (length hs) q.0 r.0
    unfolding renewal_loop
    renewal_loop-IsDoubled enabled cfg [] q r m b e =
        (ground arith, ground arith, (0, omega arith, ground arith))
    renewal_loop-IsDoubled enabled cfg (h ∷ hs) q r m b e =
        elim (Option-cases (renewal_round lib x509_ok not_after client enabled cfg h q.0 q.1)) [
          | inl stuck ↦ absurd (ground arith)
          | inr (q', moved) ↦
              let (same, small, (n, few, sum)) =
                round-IsDoubled enabled cfg h q.0 q.1 q' m b moved in
              let (same', small', (n', few', sum')) =
                renewal_loop-IsDoubled enabled cfg hs q' r m small (ground arith) in
              (same' ∙ same, small', (n + n', omega arith, omega arith))
        ]
