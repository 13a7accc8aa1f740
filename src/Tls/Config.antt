-- ===== src/Tls/Config.antt =====
-- src/tls/config.rs: loading a certificate chain and a key, and the check of the pair. Parsing PEM,
-- building rustls values and comparing keys are parameters.
use rustasgi.Base.{
  is_empty, ℕ, not, List, Option, none, some, Result, ok, err, ◌>>=◌, ◌>>◌, guard, ok_or, any,
}
use Prim.Native.String.{String}

-- The payloads that are only texts for the log are left out, but the path.
pub data TlsError : Type 0 where
  cert_not_found key_not_found io cert_parse key_parse no_certs no_key invalid_chain :
      List ℕ → TlsError
  key_mismatch : String → TlsError
  rustls : String → TlsError

-- What reading a path gives: `NotFound`, another error, or the bytes.
pub data ReadFile : Type 0 where
  not_found unreadable : ReadFile
  bytes : List ℕ → ReadFile

pub record TlsLib : Type 1 where
  pub Key : Type 0
  pub Config : Type 0
  -- `rustls_pemfile::certs` and `private_key`; `none` is a parse error.
  pub pem_certs : List ℕ → Option (List (List ℕ))
  pub pem_key : List ℕ → Option (Option Key)
  -- `CertifiedKey::from_der`, then `keys_match`: `none` is success.
  pub from_der : List (List ℕ) → Key → Option String
  pub keys_match : List (List ℕ) → Key → Option String
  -- `with_single_cert`, with ALPN set to http/1.1.
  pub with_single_cert : List (List ℕ) → Key → Result String Config

module _ (lib : TlsLib) where
  open lib use {Key, Config, pem_certs, pem_key, from_der, keys_match, with_single_cert}

  unfoldable pub load_cert_chain : (List ℕ → ReadFile) → List ℕ → Result TlsError (List (List ℕ))
  load_cert_chain disk path = elim (disk path) [
    | not_found ↦ err (cert_not_found path)
    | unreadable ↦ err (io path)
    | bytes b ↦ do
      certs ← ok_or (pem_certs b) (cert_parse path)
      guard (not (is_empty certs)) (no_certs path)
      guard (not (any is_empty certs)) (invalid_chain path)
      ok certs
  ]

  unfoldable pub load_private_key : (List ℕ → ReadFile) → List ℕ → Result TlsError Key
  load_private_key disk path = elim (disk path) [
    | not_found ↦ err (key_not_found path)
    | unreadable ↦ err (io path)
    | bytes b ↦ do key ← ok_or (pem_key b) (key_parse path); ok_or key (no_key path)
  ]

  -- An error text of the library as `KeyMismatch`.
  abbrev pub mismatch : Option String → Result TlsError (Unit {0})
  mismatch none = ok tt
  mismatch (some e) = err (key_mismatch e)

  unfoldable pub validate_pair : List (List ℕ) → Key → Result TlsError (Unit {0})
  validate_pair certs key = do mismatch (from_der certs key); mismatch (keys_match certs key)

  abbrev rustls_error : Result String Config → Result TlsError Config
  rustls_error (ok c) = ok c
  rustls_error (err e) = err (rustls e)

  unfoldable pub build_single_config :
      (List ℕ → ReadFile) → List ℕ → List ℕ → Result TlsError Config
  unfolding load_cert_chain load_private_key validate_pair
  build_single_config disk cert_path key_path = do
    certs ← load_cert_chain disk cert_path
    key ← load_private_key disk key_path
    u ← validate_pair certs key
    rustls_error (with_single_cert certs key)
