-- ===== src/Tls/Sni.antt =====
-- Several certificates: src/tls/config.rs, `build_sni_config`; src/tls/reload.rs,
-- `from_sni_entries`; src/lib.rs, the set-up of TLS in `serve_process_on`.
use rustasgi.Base.{
  ℕ, max, Bool, List, [], ◌∷◌, Option, none, some, if◌then◌else◌, ◌==◌, length, Result, ok, err,
  ◌>>=◌, ◌>>◌, ok_or,
}
use rustasgi.Tls.Config.{
  TlsError, rustls, ReadFile, TlsLib, load_cert_chain, load_private_key, mismatch,
}
use rustasgi.Tls.State.{TlsState, from_pem_files}
use rustasgi.Tls.Resolver.{SniResolver, new, add, set_default}
use Prim.Native.String.{String}

pub record SniEntry : Type 0 where
  pub domain : List ℕ
  pub cert_path : List ℕ
  pub key_path : List ℕ

-- The text in front of the first colon and the text behind it.
unfoldable pub split_once : List ℕ → Option (List ℕ × List ℕ)
split_once [] = none
split_once (c ∷ s) =
    let later = split_once s in
    if c == b':'
    then some ([], s)
    else elim later [ some parts ↦ some (c ∷ parts.0, parts.1) | none ↦ none ]

-- `entry.splitn(3, ':')`, which must have three parts.
unfoldable pub parse_sni : List ℕ → Option SniEntry
parse_sni entry = elim (split_once entry) [
  | none ↦ none
  | some first ↦ elim (split_once first.1) [
    | none ↦ none
    | some second ↦ some (record { domain = first.0; cert_path = second.0; key_path = second.1 })
  ]
]

-- The loop over `config.tls_sni`.
unfoldable pub parse_all : List (List ℕ) → Option (List SniEntry)
parse_all [] = some []
parse_all (s ∷ rest) = elim (parse_sni s) [
  | none ↦ none
  | some e ↦ elim (parse_all rest) [ none ↦ none | some es ↦ some (e ∷ es) ]
]

-- `with_cert_resolver`, with ALPN set to http/1.1, and the test of a name and its error are rustls'.
module _ (lib : TlsLib) (is_dns_name : List ℕ → Bool) (bad_name : String)
    (with_cert_resolver : SniResolver (List (List ℕ) × lib.Key) → lib.Config) where
  abbrev pub Pair : Type 0
  Pair = List (List ℕ) × lib.Key

  -- A chain, its key, and `CertifiedKey::from_der` of both.
  unfoldable pub load_pair : (List ℕ → ReadFile) → List ℕ → List ℕ → Result TlsError Pair
  load_pair disk cert_path key_path = do
    certs ← load_cert_chain lib disk cert_path
    key ← load_private_key lib disk key_path
    mismatch lib (lib.from_der certs key)
    ok (certs, key)

  -- The loop over the entries.
  unfoldable pub add_entries :
      (List ℕ → ReadFile) → List SniEntry → SniResolver Pair → Result TlsError (SniResolver Pair)
  add_entries disk [] r = ok r
  add_entries disk (e ∷ es) r = do
    pair ← load_pair disk e.cert_path e.key_path
    r' ← ok_or (add is_dns_name e.domain pair r) (rustls bad_name)
    add_entries disk es r'

  unfoldable pub add_default :
      (List ℕ → ReadFile)
      → Option (List ℕ × List ℕ)
      → SniResolver Pair
      → Result TlsError (SniResolver Pair)
  add_default disk none r = ok r
  add_default disk (some (cert_path, key_path)) r = do
    pair ← load_pair disk cert_path key_path
    ok (set_default pair r)

  -- The resolver that the configuration is built with.
  unfoldable pub sni_resolver :
      (List ℕ → ReadFile)
      → List SniEntry
      → Option (List ℕ × List ℕ)
      → Result TlsError (SniResolver Pair)
  sni_resolver disk entries default_cert = do
    r ← add_entries disk entries new
    add_default disk default_cert r

  unfoldable pub build_sni_config :
      (List ℕ → ReadFile) → List SniEntry → Option (List ℕ × List ℕ) → Result TlsError lib.Config
  build_sni_config disk entries default_cert = do
    r ← sni_resolver disk entries default_cert
    ok (with_cert_resolver r)

  unfoldable pub from_sni_entries :
      (List ℕ → ReadFile)
      → List SniEntry
      → Option (List ℕ × List ℕ)
      → Result TlsError (TlsState lib)
  from_sni_entries disk entries default_cert = do
    cfg ← build_sni_config disk entries default_cert
    ok (record {
      config = cfg;
      cert_count = max (length entries) 1;
      cert_path = none;
      key_path = none;
    })

  -- The TLS state of the worker: an error, none, or one that is used.
  pub data SetupError : Type 0 where
    invalid_sni one_of_two : SetupError
    tls_error : TlsError → SetupError

  abbrev setup_of : Result TlsError (TlsState lib) → Result SetupError (Option (TlsState lib))
  setup_of (ok s) = ok (some s)
  setup_of (err e) = err (tls_error e)

  setup_sni :
      (List ℕ → ReadFile)
      → Option (List SniEntry)
      → Option (List ℕ)
      → Option (List ℕ)
      → Result SetupError (Option (TlsState lib))
  setup_sni disk none cert key = err invalid_sni
  setup_sni disk (some es) (some cert) (some key) =
      setup_of (from_sni_entries disk es (some (cert, key)))
  setup_sni disk (some es) none none = setup_of (from_sni_entries disk es none)
  setup_sni disk (some es) _ _ = err one_of_two

  setup_single :
      (List ℕ → ReadFile)
      → Option (List ℕ)
      → Option (List ℕ)
      → Result SetupError (Option (TlsState lib))
  setup_single disk (some cert) (some key) = setup_of (from_pem_files lib disk cert key)
  setup_single disk none none = ok none
  setup_single disk _ _ = err one_of_two

  unfoldable pub setup_tls :
      (List ℕ → ReadFile)
      → List (List ℕ)
      → Option (List ℕ)
      → Option (List ℕ)
      → Result SetupError (Option (TlsState lib))
  unfolding setup_single setup_sni
  setup_tls disk [] cert key = setup_single disk cert key
  setup_tls disk (s ∷ sni) cert key = setup_sni disk (parse_all (s ∷ sni)) cert key
