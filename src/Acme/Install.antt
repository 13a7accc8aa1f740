-- ===== src/Acme/Install.antt =====
-- src/acme/certificate.rs: `atomic_install` and `validate_pem_pair`.
use rustasgi.Base.{
  is_empty, ℕ, Bool, true, not, List, [], ◌∷◌, if◌then◌else◌, Result, ok, err, ◌>>=◌, ◌>>◌, guard,
  ok_or,
}
use rustasgi.Base.Text.{bytes_eq}
use rustasgi.Tls.Config.{TlsError, ReadFile, bytes, not_found, TlsLib, validate_pair}
use rustasgi.Tls.State.{TlsState, reload_from_pem}

-- The failures of an installation, by the step.
pub data InstallError : Type 0 where
  cert_parse no_certs key_parse no_key x509_parse : InstallError
  pair : TlsError → InstallError
  write_cert_tmp write_key_tmp rename_cert rename_key : InstallError
  reload_failed : TlsError → InstallError

-- The file system: what reading a path gives.
abbrev pub Disk : Type 0
Disk = List ℕ → ReadFile

unfoldable pub put_file : List ℕ → ReadFile → Disk → Disk
put_file path f disk asked = if bytes_eq path asked then f else disk asked

-- `fs::rename`, when it succeeds.
unfoldable pub move_file : List ℕ → List ℕ → Disk → Disk
unfolding put_file
move_file from to disk = put_file from not_found (put_file to (disk from) disk)

-- The two paths that the server reads, and the same with `with_extension("pem.tmp")` and
-- `with_extension("key.tmp")`.
pub record Paths : Type 0 where
  pub cert : List ℕ
  pub key : List ℕ
  pub cert_tmp : List ℕ
  pub key_tmp : List ℕ

-- A write succeeds, or fails and leaves something behind.
pub data Write : Type 0 where
  written : Write
  left : ReadFile → Write

pub record Weather : Type 0 where
  pub write_cert : Write
  pub write_key : Write
  pub rename_cert_ok : Bool
  pub rename_key_ok : Bool

module _ (lib : TlsLib) (x509_ok : List ℕ → Bool) where
  abbrev pair_error : Result TlsError (Unit {0}) → Result InstallError (Unit {0})
  pair_error (ok u) = ok u
  pair_error (err e) = err (pair e)

  -- `X509Certificate::from_der` on the first certificate.
  first_ok : List (List ℕ) → Bool
  first_ok [] = true
  first_ok (c ∷ _) = x509_ok c

  unfoldable pub validate_pem_pair : List ℕ → List ℕ → Result InstallError (Unit {0})
  unfolding first_ok
  validate_pem_pair cert_pem key_pem = do
    certs ← ok_or (lib.pem_certs cert_pem) cert_parse
    guard (not (is_empty certs)) no_certs
    maybe_key ← ok_or (lib.pem_key key_pem) key_parse
    key ← ok_or maybe_key no_key
    u ← pair_error (validate_pair lib certs key)
    guard (first_ok certs) x509_parse

  -- The disk and the TLS state, and the result.
  abbrev pub Outcome : Type 0
  Outcome = Disk × TlsState lib × Result InstallError (Unit {0})

  unfoldable pub reload_result : Disk → TlsState lib × Result TlsError (Unit {0}) → Outcome
  reload_result disk (tls, ok u) = (disk, tls, ok u)
  reload_result disk (tls, err e) = (disk, tls, err (reload_failed e))

  -- `tls_state.reload_from_pem(cert_path, key_path)`.
  unfoldable pub reload_step : Paths → Disk → TlsState lib → Outcome
  reload_step p disk tls = reload_result disk (reload_from_pem lib disk p.cert p.key tls)

  unfoldable pub rename_key_step : Paths → Weather → Disk → TlsState lib → Outcome
  rename_key_step p w disk tls =
      if w.rename_key_ok
      then reload_step p (move_file p.key_tmp p.key disk) tls
      else (disk, tls, err rename_key)

  unfoldable pub rename_cert_step : Paths → Weather → Disk → TlsState lib → Outcome
  rename_cert_step p w disk tls =
      if w.rename_cert_ok
      then rename_key_step p w (move_file p.cert_tmp p.cert disk) tls
      else (disk, tls, err rename_cert)

  unfoldable pub write_key_step : Paths → Write → Weather → List ℕ → Disk → TlsState lib → Outcome
  write_key_step p (left f) w key_pem disk tls = (put_file p.key_tmp f disk, tls, err write_key_tmp)
  write_key_step p written w key_pem disk tls =
      rename_cert_step p w (put_file p.key_tmp (bytes key_pem) disk) tls

  unfoldable pub write_cert_step :
      Paths → Write → Weather → List ℕ → List ℕ → Disk → TlsState lib → Outcome
  write_cert_step p (left f) w cert_pem key_pem disk tls =
      (put_file p.cert_tmp f disk, tls, err write_cert_tmp)
  write_cert_step p written w cert_pem key_pem disk tls =
      write_key_step p w.write_key w key_pem (put_file p.cert_tmp (bytes cert_pem) disk) tls

  unfoldable pub install_files : Paths → Weather → List ℕ → List ℕ → Disk → TlsState lib → Outcome
  unfolding write_cert_step write_key_step rename_cert_step rename_key_step reload_step
      reload_result
  install_files p w cert_pem key_pem disk tls =
      write_cert_step p w.write_cert w cert_pem key_pem disk tls

  unfoldable pub install_valid :
      Result InstallError (Unit {0})
      → Paths
      → Weather
      → List ℕ
      → List ℕ
      → Disk
      → TlsState lib
      → Outcome
  install_valid (err e) p w cert_pem key_pem disk tls = (disk, tls, err e)
  install_valid (ok u) p w cert_pem key_pem disk tls = install_files p w cert_pem key_pem disk tls

  -- Permissions and `sync_all` are best effort, and change no content.
  unfoldable pub atomic_install : Paths → Weather → List ℕ → List ℕ → Disk → TlsState lib → Outcome
  unfolding install_valid
  atomic_install p w cert_pem key_pem disk tls =
      install_valid (validate_pem_pair cert_pem key_pem) p w cert_pem key_pem disk tls
