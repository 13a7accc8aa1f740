-- ===== src/Tests/Certificates.antt =====
-- Certificates: their names (src/tls/resolver.rs), their installation and renewal (src/acme).
use rustasgi.Base.{
  ℕ, ◌≡◌, refl, Bool, true, false, List, [], ◌∷◌, Option, none, some, if◌then◌else◌, Result, ok,
  arith,
}
use rustasgi.Base.Text.{strip_prefix, codes, bytes_eq, to_ascii_lowercase}
use rustasgi.Challenge.{insert, is_valid_token, get}
use rustasgi.Tls.Resolver.{SniResolver, add, new, set_default, resolve}
use rustasgi.Tls.Sni.{SniEntry, load_pair, add_entries, add_default, sni_resolver}
use rustasgi.Tls.SniLaws.{sni_resolver-resolve}
use rustasgi.Tls.Config.{
  not_found, bytes, TlsLib, validate_pair, load_cert_chain, load_private_key, build_single_config,
}
use rustasgi.Tls.State.{TlsState, reload_from_pem}
use rustasgi.Acme.Install.{
  Disk, Paths, written, Weather, validate_pem_pair, install_files, move_file, atomic_install,
}
use rustasgi.Acme.InstallLaws.{AreApart, IsInstalled, atomic_install-IsInstalled}
use rustasgi.Acme.Account.{load_or_create_account}
use rustasgi.Tests.Accounts.{client, saving}
use rustasgi.Acme.Due.{ℤ}
use rustasgi.Acme.Renewal.{
  AcmeConfig, needs, should_renew, RenewError, OrderStatus, pending, ready, invalid, Authz, Site,
  Order, try_acme_issuance,
}
use rustasgi.Acme.Task.{Hour, Round, is_mock, renewal_round, renewal_loop, renew_acme}
use rustasgi.Acme.TaskLaws.{IsDoubled, renewal_loop-IsDoubled}
use rustasgi.Acme.RenewalLaws.{named, try_acme_issuance-clears}

-- Keys and configurations are numbers, and a file holds one item.
abbrev pub lib : TlsLib
lib = record {
  Key = List ℕ;
  Config = List ℕ;
  pem_certs = λ b. some (b ∷ []);
  pem_key = λ b. some (some b);
  from_der = λ certs key. none;
  keys_match = λ certs key. none;
  with_single_cert = λ certs key. ok key;
}

abbrev paths : Paths
paths = record {
  cert = codes "cert.pem";
  key = codes "key.pem";
  cert_tmp = codes "cert.pem.tmp";
  key_tmp = codes "key.key.tmp";
}

abbrev paths-AreApart : AreApart paths
unfolding bytes_eq
paths-AreApart = record {
  cert_key = refl;
  key_cert = refl;
  cert_tmp_cert = refl;
  cert_tmp_key = refl;
  key_tmp_cert = refl;
  key_tmp_key = refl;
  cert_key_tmp = refl;
  cert_tmp_key_tmp = refl;
  key_tmp_cert_tmp = refl;
}

abbrev disk : Disk
disk path = not_found

abbrev tls : TlsState lib
tls = record { config = 1 ∷ []; cert_count = 1; cert_path = none; key_path = none }

abbrev x509_ok : List ℕ → Bool
x509_ok c = true

abbrev fair : Weather
fair = record {
  write_cert = written;
  write_key = written;
  rename_cert_ok = true;
  rename_key_ok = true;
}

abbrev half : Weather
half = record fair { rename_key_ok = false }

atomic_install-IsInstalled_example :
    IsInstalled lib x509_ok paths
      (7 ∷ [])
      (8 ∷ [])
      disk
      tls
      (atomic_install lib x509_ok paths fair (7 ∷ []) (8 ∷ []) disk tls)
atomic_install-IsInstalled_example =
    atomic_install-IsInstalled lib x509_ok paths fair (7 ∷ []) (8 ∷ []) disk tls paths-AreApart

abbrev slow : List (Option OrderStatus)
slow =
    some pending
    ∷ some pending
    ∷ some pending
    ∷ some pending
    ∷ some pending
    ∷ some pending
    ∷ some pending
    ∷ some pending
    ∷ some pending
    ∷ some pending
    ∷ some ready
    ∷ []

abbrev token : List ℕ
token = codes "t"

abbrev authzs : List Authz
authzs = record { http01 = some (token, codes "k"); ready_ok = true } ∷ []

abbrev order : Order
order = record {
  saving = saving;
  new_order_ok = true;
  authzs = some authzs;
  polls = slow;
  generated = some (7 ∷ [], 8 ∷ []);
  weather = fair;
}

abbrev site : Site lib
site = record { store = (codes "u", codes "v") ∷ []; disk = disk; tls = tls }

abbrev acme : AcmeConfig
acme = record {
  directory_url = codes "https://ca";
  email = codes "a@b";
  domains = codes "b" ∷ [];
  storage_dir = codes ".";
  renew_threshold_days = 30;
}

abbrev site_or : Site lib → Option (Site lib × Result RenewError (Unit {0})) → Site lib
site_or s none = s
site_or s (some (t, r)) = t

abbrev site_after : Site lib
site_after = site_or site (try_acme_issuance lib x509_ok client acme paths order site)

try_acme_issuance-clears_example :
    get token site_after.store ≡ (if named token authzs then none else get token site.store)
unfolding try_acme_issuance atomic_install validate_pem_pair validate_pair install_files
    reload_from_pem build_single_config move_file bytes_eq load_or_create_account
try_acme_issuance-clears_example =
    try_acme_issuance-clears lib x509_ok client acme paths order site site_after authzs token refl
      refl

-- An order that the server refuses, with metrics on.
abbrev refused : Hour
refused = record { now = 0; order = record order { polls = some invalid ∷ [] } }

abbrev no_dates : List ℕ → Option ℤ
no_dates c = none

abbrev before_rounds : Round lib x509_ok no_dates
before_rounds = (record { orders = 0; renewals = 0; failures = 0 }, site)

abbrev after_rounds : Round lib x509_ok no_dates
after_rounds = (
  record { orders = 1; renewals = 0; failures = 2 },
  record site {
    store = (token, codes "k") ∷ (codes "u", codes "v") ∷ [];
    disk =
        (load_or_create_account client acme.storage_dir acme.email acme.directory_url disk
          saving).0;
  },
)

renewal_loop-IsDoubled_example : IsDoubled lib x509_ok no_dates 1 before_rounds.0 after_rounds.0
unfolding renewal_loop renewal_round is_mock strip_prefix needs should_renew renew_acme
    try_acme_issuance insert is_valid_token bytes_eq load_or_create_account
renewal_loop-IsDoubled_example =
    renewal_loop-IsDoubled lib x509_ok no_dates client true acme (refused ∷ []) before_rounds
      after_rounds refl (omega arith) refl

-- Every file holds its own path.
abbrev echo : Disk
echo path = bytes path

abbrev entries : List SniEntry
entries =
    record { domain = codes "a.b"; cert_path = codes "x"; key_path = codes "y" }
    ∷ record { domain = codes "A.B"; cert_path = codes "z"; key_path = codes "w" }
    ∷ []

abbrev pair_at : List ℕ → List ℕ → List (List ℕ) × List ℕ
pair_at c k = (c ∷ [], k)

abbrev names : SniResolver (List (List ℕ) × List ℕ)
names = record {
  by_name =
      (codes "a.b", pair_at (codes "z") (codes "w"))
      ∷ (codes "a.b", pair_at (codes "x") (codes "y"))
      ∷ [];
  fallback = some (pair_at (codes "d") (codes "e"));
}

abbrev any_name : List ℕ → Bool
any_name n = true

abbrev config_of : SniResolver (List (List ℕ) × List ℕ) → List ℕ
config_of r = []

sni_resolver-resolve_example :
    (resolve (some (codes "a.B")) names ≡ some (pair_at (codes "z") (codes "w")))
    × (resolve none names ≡ some (pair_at (codes "d") (codes "e")))
unfolding sni_resolver add_entries load_pair load_cert_chain load_private_key add add_default
    set_default to_ascii_lowercase new bytes_eq
sni_resolver-resolve_example =
    sni_resolver-resolve lib any_name "bad" config_of echo entries (some (codes "d", codes "e"))
      names (codes "a.B") refl
