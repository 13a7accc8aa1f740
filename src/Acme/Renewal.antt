-- ===== src/Acme/Renewal.antt =====
-- src/acme/renewal.rs: when a certificate is renewed, and how an order runs. The ACME server, rcgen
-- and x509-parser are parameters.
use rustasgi.Base.{
  ℕ, suc, Bool, true, false, not, List, [], ◌∷◌, Option, none, some, if◌then◌else◌, ltb, Result, ok,
  err,
}
use rustasgi.Acme.Due.{ℤ, is_due}
use rustasgi.Challenge.{Entries, insert, remove}
use rustasgi.Acme.Account.{AccountError, AcmeClient, Saving, load_or_create_account}
use rustasgi.Tls.Config.{ReadFile, not_found, unreadable, bytes, TlsLib}
use rustasgi.Tls.State.{TlsState}
use rustasgi.Acme.Install.{InstallError, Disk, Paths, Weather, atomic_install}

-- Why a certificate on disk cannot be dated, or an order failed.
pub data RenewError : Type 0 where
  read_cert parse_cert no_cert x509_parse : RenewError
  account : AccountError → RenewError
  new_order authz no_http01 set_challenge_ready refresh order_invalid order_not_ready : RenewError
  generate : RenewError
  install : InstallError → RenewError

pub data OrderStatus : Type 0 where
  pending ready processing valid invalid : OrderStatus

-- A status that ends the polling, and how.
unfoldable pub verdict : OrderStatus → Option (Result RenewError (Unit {0}))
verdict ready = some (ok tt)
verdict invalid = some (err order_invalid)
verdict _ = none

unfoldable pub or_later :
    Bool
    → Option (Result RenewError (Unit {0}))
    → Option (Result RenewError (Unit {0}))
    → Option (Result RenewError (Unit {0}))
or_later last (some r) later = some r
or_later last none later = if last then some (err order_not_ready) else later

-- The loop that polls the order: each element of the script is what one `order.refresh()` gives,
-- `none` an error. The result is `none` while the script has no more elements.
unfoldable pub poll_order : ℕ → List (Option OrderStatus) → Option (Result RenewError (Unit {0}))
unfolding verdict or_later
poll_order tries [] = none
poll_order tries (none ∷ rest) = some (err refresh)
poll_order tries (some s ∷ rest) =
    or_later (ltb 10 (suc tries)) (verdict s) (poll_order (suc tries) rest)

-- An authorisation: its HTTP-01 challenge, a token and the key authorisation, and whether the
-- server takes `set_challenge_ready`.
pub record Authz : Type 0 where
  pub http01 : Option (List ℕ × List ℕ)
  pub ready_ok : Bool

unfoldable pub place_one :
    Option (List ℕ × List ℕ) → Bool → Entries → Entries × Result RenewError (Unit {0})
place_one none b m = (m, err no_http01)
place_one (some (token, auth)) true m = (insert token auth m, ok tt)
place_one (some (token, auth)) false m = (insert token auth m, err set_challenge_ready)

-- The loop that places the challenges, with its early returns.
unfoldable pub place : List Authz → Entries → Entries × Result RenewError (Unit {0})
unfolding place_one
place [] m = (m, ok tt)
place (a ∷ rest) m =
    let (next, r) = place_one a.http01 a.ready_ok m in
    elim r [ err e ↦ (next, err e) | ok u ↦ place rest next ]

unfoldable pub remove_token : Option (List ℕ × List ℕ) → Entries → Entries
remove_token none m = m
remove_token (some (token, auth)) m = remove token m

-- The loop that removes them.
unfoldable pub cleanup : List Authz → Entries → Entries
cleanup [] m = m
cleanup (a ∷ rest) m = cleanup rest (remove_token a.http01 m)

pub record AcmeConfig : Type 0 where
  pub directory_url : List ℕ
  pub email : List ℕ
  pub domains : List (List ℕ)
  pub storage_dir : List ℕ
  pub renew_threshold_days : ℕ

-- What an order changes.
pub record Site (lib : TlsLib) : Type 0 where
  pub store : Entries
  pub disk : Disk
  pub tls : TlsState lib

-- What the ACME server, rcgen and the file system answer during one order.
pub record Order : Type 0 where
  pub saving : Saving
  pub new_order_ok : Bool
  pub authzs : Option (List Authz)
  pub polls : List (Option OrderStatus)
  pub generated : Option (List ℕ × List ℕ)
  pub weather : Weather

module _ (lib : TlsLib) (not_after : List ℕ → Option ℤ) where
  first_due : Option (List (List ℕ)) → ℕ → ℕ → Result RenewError Bool
  first_due none now t = err parse_cert
  first_due (some []) now t = err no_cert
  first_due (some (c ∷ rest)) now t = elim (not_after c) [
    | none ↦ err x509_parse
    | some e ↦ ok (is_due e now t)
  ]

  unfoldable pub should_renew : ReadFile → ℕ → ℕ → Result RenewError Bool
  unfolding first_due
  should_renew not_found now t = err read_cert
  should_renew unreadable now t = err read_cert
  should_renew (bytes b) now t = first_due (lib.pem_certs b) now t

  -- `should_renew(..).unwrap_or(true)`, and true when the file does not exist.
  unfoldable pub needs : ReadFile → ℕ → ℕ → Bool
  needs file now t = elim (should_renew file now t) [ ok b ↦ b | err e ↦ true ]

module _ (lib : TlsLib) (x509_ok : List ℕ → Bool) where
  unfoldable pub installed :
      Entries
      → Disk × TlsState lib × Result InstallError (Unit {0})
      → Site lib × Result RenewError (Unit {0})
  installed m (disk, tls, ok u) = (record { store = m; disk = disk; tls = tls }, ok tt)
  installed m (disk, tls, err e) = (record { store = m; disk = disk; tls = tls }, err (install e))

  -- `generate_self_signed(domains)?`, then `atomic_install`.
  unfoldable pub generate_and_install :
      Paths
      → Option (List ℕ × List ℕ)
      → Weather
      → Site lib
      → Site lib × Result RenewError (Unit {0})
  unfolding installed
  generate_and_install p none w s = (s, err generate)
  generate_and_install p (some (cert_pem, key_pem)) w s =
      installed s.store (atomic_install lib x509_ok p w cert_pem key_pem s.disk s.tls)

  unfoldable pub cleaned :
      List Authz → Site lib × Result RenewError (Unit {0}) → Site lib × Result RenewError (Unit {0})
  unfolding cleanup
  cleaned authzs (s, err e) = (s, err e)
  cleaned authzs (s, ok u) = (record s { store = cleanup authzs s.store }, ok tt)

  unfoldable pub polled :
      Paths
      → Order
      → List Authz
      → Site lib
      → Option (Result RenewError (Unit {0}))
      → Option (Site lib × Result RenewError (Unit {0}))
  unfolding generate_and_install cleaned
  polled p o authzs s none = none
  polled p o authzs s (some (err e)) = some (s, err e)
  polled p o authzs s (some (ok u)) =
      some (cleaned authzs (generate_and_install p o.generated o.weather s))

  unfoldable pub placed :
      Paths
      → Order
      → List Authz
      → Site lib
      → Entries × Result RenewError (Unit {0})
      → Option (Site lib × Result RenewError (Unit {0}))
  unfolding polled poll_order
  placed p o authzs s (m, err e) = some (record s { store = m }, err e)
  placed p o authzs s (m, ok u) = polled p o authzs (record s { store = m }) (poll_order 0 o.polls)

  -- From the account on.
  unfoldable pub ordered :
      Paths → Order → Site lib → Option (Site lib × Result RenewError (Unit {0}))
  unfolding placed place
  ordered p o s = if not o.new_order_ok then some (s, err new_order) else (elim o.authzs [
    | none ↦ some (s, err authz)
    | some authzs ↦ placed p o authzs s (place authzs s.store)
  ])

  module _ (client : AcmeClient) where
    unfoldable pub with_account :
        Paths
        → Order
        → Site lib
        → Disk × Result AccountError client.Account
        → Option (Site lib × Result RenewError (Unit {0}))
    unfolding ordered
    with_account p o s (disk, err e) = some (record s { disk = disk }, err (account e))
    with_account p o s (disk, ok a) = ordered p o (record s { disk = disk })

    unfoldable pub try_acme_issuance :
        AcmeConfig → Paths → Order → Site lib → Option (Site lib × Result RenewError (Unit {0}))
    unfolding with_account
    try_acme_issuance cfg p o s =
        with_account p o s (
          load_or_create_account client cfg.storage_dir cfg.email cfg.directory_url s.disk o.saving)
