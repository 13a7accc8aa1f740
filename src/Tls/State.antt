-- ===== src/Tls/State.antt =====
-- src/tls/reload.rs: the configuration in use, replaced as a whole.
use rustasgi.Base.{ℕ, List, Option, some, Result, ok, err}
use rustasgi.Tls.Config.{TlsError, ReadFile, TlsLib, build_single_config}

pub record TlsState (lib : TlsLib) : Type 0 where
  -- What the `ArcSwap` holds.
  pub config : lib.Config
  pub cert_count : ℕ
  pub cert_path : Option (List ℕ)
  pub key_path : Option (List ℕ)

module _ (lib : TlsLib) where
  fresh_state : List ℕ → List ℕ → Result TlsError lib.Config → Result TlsError (TlsState lib)
  fresh_state cert_path key_path (err e) = err e
  fresh_state cert_path key_path (ok c) =
      ok (record {
        config = c;
        cert_count = 1;
        cert_path = some cert_path;
        key_path = some key_path;
      })

  unfoldable pub from_pem_files :
      (List ℕ → ReadFile) → List ℕ → List ℕ → Result TlsError (TlsState lib)
  unfolding fresh_state
  from_pem_files disk cert_path key_path =
      fresh_state cert_path key_path (build_single_config lib disk cert_path key_path)

  unfoldable pub reload : TlsState lib → lib.Config → TlsState lib
  reload s new_config = record {
    config = new_config;
    cert_count = s.cert_count;
    cert_path = s.cert_path;
    key_path = s.key_path;
  }

  unfoldable pub reload_with :
      TlsState lib → Result TlsError lib.Config → TlsState lib × Result TlsError (Unit {0})
  reload_with s (err e) = (s, err e)
  reload_with s (ok c) = (reload s c, ok tt)

  -- The new state, and the result.
  unfoldable pub reload_from_pem :
      (List ℕ → ReadFile)
      → List ℕ
      → List ℕ
      → TlsState lib
      → TlsState lib × Result TlsError (Unit {0})
  unfolding reload_with reload
  reload_from_pem disk cert_path key_path s =
      reload_with s (build_single_config lib disk cert_path key_path)
