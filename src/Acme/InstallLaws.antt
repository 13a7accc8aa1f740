-- ===== src/Acme/InstallLaws.antt =====
-- What an installation leaves behind, on every outcome (src/acme/certificate.rs).
use rustasgi.Base.{
  ℕ, ◌≡◌, ◌≢◌, refl, Bool, true, false, List, if◌then◌else◌, arith, Result, ok, err,
}
use rustasgi.Base.Text.{bytes_eq, bytes_eq_refl}
use rustasgi.Tls.Config.{TlsError, bytes, TlsLib, build_single_config}
use rustasgi.Tls.State.{TlsState, reload, reload_with, reload_from_pem}
use rustasgi.Acme.Install.{
  InstallError, rename_key, reload_failed, Disk, put_file, move_file, Paths, Write, written, left,
  Weather, validate_pem_pair, Outcome, reload_result, reload_step, rename_key_step,
  rename_cert_step, write_key_step, write_cert_step, install_files, install_valid, atomic_install,
}

-- The four paths differ.
pub record AreApart (p : Paths) : Type 0 where
  pub cert_key : bytes_eq p.cert p.key ≡ false
  pub key_cert : bytes_eq p.key p.cert ≡ false
  pub cert_tmp_cert : bytes_eq p.cert_tmp p.cert ≡ false
  pub cert_tmp_key : bytes_eq p.cert_tmp p.key ≡ false
  pub key_tmp_cert : bytes_eq p.key_tmp p.cert ≡ false
  pub key_tmp_key : bytes_eq p.key_tmp p.key ≡ false
  pub cert_key_tmp : bytes_eq p.cert p.key_tmp ≡ false
  pub cert_tmp_key_tmp : bytes_eq p.cert_tmp p.key_tmp ≡ false
  pub key_tmp_cert_tmp : bytes_eq p.key_tmp p.cert_tmp ≡ false

module _ (lib : TlsLib) (x509_ok : List ℕ → Bool) where
  -- The outcome of an installation that got past the validation: nothing that the server reads has
  -- changed; or the certificate alone; or both, and the configuration is built from them.
  pub data IsInstalled (p : Paths) (cert_pem key_pem : List ℕ) (disk : Disk) (tls : TlsState lib)
      (o : Outcome lib x509_ok) : Type 0 where
    untouched :
        o.0 p.cert ≡ disk p.cert
        → o.0 p.key ≡ disk p.key
        → o.1 ≡ tls
        → o.2 ≢ ok tt
        → IsInstalled p cert_pem key_pem disk tls o
    cert_only :
        o.0 p.cert ≡ bytes cert_pem
        → o.0 p.key ≡ disk p.key
        → o.1 ≡ tls
        → o.2 ≡ err rename_key
        → IsInstalled p cert_pem key_pem disk tls o
    not_loaded :
        (e : TlsError)
        → o.0 p.cert ≡ bytes cert_pem
        → o.0 p.key ≡ bytes key_pem
        → o.1 ≡ tls
        → o.2 ≡ err (reload_failed e)
        → IsInstalled p cert_pem key_pem disk tls o
    loaded :
        (c : lib.Config)
        → o.0 p.cert ≡ bytes cert_pem
        → o.0 p.key ≡ bytes key_pem
        → build_single_config lib o.0 p.cert p.key ≡ ok c
        → o.1 ≡ reload lib tls c
        → o.2 ≡ ok tt
        → IsInstalled p cert_pem key_pem disk tls o

  -- The disk once both files are renamed.
  final_disk : Paths → List ℕ → List ℕ → Disk → Disk
  unfolding move_file
  final_disk p cert_pem key_pem disk = move_file p.key_tmp p.key (
      move_file p.cert_tmp p.cert
        (put_file p.key_tmp (bytes key_pem) (put_file p.cert_tmp (bytes cert_pem) disk)))

  final_disk_reads :
      (p : Paths) (cert_pem key_pem : List ℕ) (disk : Disk)
      → AreApart p
      → (final_disk p cert_pem key_pem disk p.cert ≡ bytes cert_pem)
        × (final_disk p cert_pem key_pem disk p.key ≡ bytes key_pem)
  unfolding final_disk put_file
  final_disk_reads p cert_pem key_pem disk apart = (
    ground (arith, bytes_eq_refl p.cert, bytes_eq_refl p.cert_tmp),
    ground (arith, bytes_eq_refl p.key, bytes_eq_refl p.key_tmp),
  )

  reload_result-IsInstalled :
      (p : Paths) (cert_pem key_pem : List ℕ) (disk d : Disk) (tls : TlsState lib)
      (built : Result TlsError lib.Config)
      → d p.cert ≡ bytes cert_pem
      → d p.key ≡ bytes key_pem
      → build_single_config lib d p.cert p.key ≡ built
      → IsInstalled p cert_pem key_pem disk tls
          (reload_result lib x509_ok d (reload_with lib tls built))
  unfolding reload_result reload_with
  reload_result-IsInstalled p cert_pem key_pem disk d tls (ok c) hc hk hb =
      loaded c hc hk hb refl refl
  reload_result-IsInstalled p cert_pem key_pem disk d tls (err e) hc hk hb =
      not_loaded e hc hk refl refl

  reload_step-IsInstalled :
      (p : Paths) (cert_pem key_pem : List ℕ) (disk : Disk) (tls : TlsState lib)
      → AreApart p
      → IsInstalled p cert_pem key_pem disk tls
          (reload_step lib x509_ok p (final_disk p cert_pem key_pem disk) tls)
  unfolding reload_step reload_from_pem
  reload_step-IsInstalled p cert_pem key_pem disk tls apart =
      let d = final_disk p cert_pem key_pem disk in
      let (hc, hk) = final_disk_reads p cert_pem key_pem disk apart in
      reload_result-IsInstalled p cert_pem key_pem disk d tls
        (build_single_config lib d p.cert p.key) hc hk refl

  if_both :
      (P : Outcome lib x509_ok → Type 0) (b : Bool) {x y : Outcome lib x509_ok}
      → P x
      → P y
      → P (if b then x else y)
  if_both P true px py = px
  if_both P false px py = py

  rename_cert-IsInstalled :
      (p : Paths) (w : Weather) (cert_pem key_pem : List ℕ) (disk : Disk) (tls : TlsState lib)
      → AreApart p
      → IsInstalled p cert_pem key_pem disk tls (
          rename_cert_step lib x509_ok p w
            (put_file p.key_tmp (bytes key_pem) (put_file p.cert_tmp (bytes cert_pem) disk))
            tls)
  unfolding rename_cert_step rename_key_step final_disk move_file put_file
  rename_cert-IsInstalled p w cert_pem key_pem disk tls apart =
      let P : Outcome lib x509_ok → Type 0 = IsInstalled p cert_pem key_pem disk tls in
      if_both P w.rename_cert_ok
        (if_both P w.rename_key_ok (reload_step-IsInstalled p cert_pem key_pem disk tls apart) (
          cert_only (ground (arith, bytes_eq_refl p.cert, bytes_eq_refl p.cert_tmp)) (ground arith)
            refl refl))
        (untouched (ground arith) (ground arith) refl cc)

  write_key-IsInstalled :
      (p : Paths) (r : Write) (w : Weather) (cert_pem key_pem : List ℕ) (disk : Disk)
      (tls : TlsState lib)
      → AreApart p
      → IsInstalled p cert_pem key_pem disk tls
          (write_key_step lib x509_ok p r w key_pem (put_file p.cert_tmp (bytes cert_pem) disk) tls)
  unfolding write_key_step put_file
  write_key-IsInstalled p written w cert_pem key_pem disk tls apart =
      rename_cert-IsInstalled p w cert_pem key_pem disk tls apart
  write_key-IsInstalled p (left f) w cert_pem key_pem disk tls apart =
      untouched (ground arith) (ground arith) refl cc

  write_cert-IsInstalled :
      (p : Paths) (r : Write) (w : Weather) (cert_pem key_pem : List ℕ) (disk : Disk)
      (tls : TlsState lib)
      → AreApart p
      → IsInstalled p cert_pem key_pem disk tls
          (write_cert_step lib x509_ok p r w cert_pem key_pem disk tls)
  unfolding write_cert_step put_file
  write_cert-IsInstalled p written w cert_pem key_pem disk tls apart =
      write_key-IsInstalled p w.write_key w cert_pem key_pem disk tls apart
  write_cert-IsInstalled p (left f) w cert_pem key_pem disk tls apart =
      untouched (ground arith) (ground arith) refl cc

  install_valid-IsInstalled :
      (v : Result InstallError (Unit {0})) (p : Paths) (w : Weather) (cert_pem key_pem : List ℕ)
      (disk : Disk) (tls : TlsState lib)
      → AreApart p
      → IsInstalled p cert_pem key_pem disk tls
          (install_valid lib x509_ok v p w cert_pem key_pem disk tls)
  unfolding install_valid install_files
  install_valid-IsInstalled (err e) p w cert_pem key_pem disk tls apart =
      untouched refl refl refl cc
  install_valid-IsInstalled (ok u) p w cert_pem key_pem disk tls apart =
      write_cert-IsInstalled p w.write_cert w cert_pem key_pem disk tls apart

  -- Whatever the disk and the TLS library do, an installation at four different paths ends in one
  -- of these outcomes: a failure with both files and the TLS state as they were; the new
  -- certificate beside the old key, when the second rename fails; both new files and the old TLS
  -- state, when loading them fails; or success, with both new files on disk and the configuration
  -- built from them in use.
  pub atomic_install-IsInstalled :
      (p : Paths) (w : Weather) (cert_pem key_pem : List ℕ) (disk : Disk) (tls : TlsState lib)
      → AreApart p
      → IsInstalled p cert_pem key_pem disk tls
          (atomic_install lib x509_ok p w cert_pem key_pem disk tls)
  unfolding atomic_install
  atomic_install-IsInstalled p w cert_pem key_pem disk tls apart =
      install_valid-IsInstalled (validate_pem_pair lib x509_ok cert_pem key_pem) p w cert_pem
        key_pem disk tls apart

  -- An installation whose second rename fails, after everything before it succeeded, leaves the
  -- new certificate on disk beside the old key.
  pub atomic_install-splits_pair :
      (p : Paths) (w : Weather) (cert_pem key_pem : List ℕ) (disk : Disk) (tls : TlsState lib)
      → AreApart p
      → validate_pem_pair lib x509_ok cert_pem key_pem ≡ ok tt
      → w.write_cert ≡ written
      → w.write_key ≡ written
      → w.rename_cert_ok ≡ true
      → w.rename_key_ok ≡ false
      → let o = atomic_install lib x509_ok p w cert_pem key_pem disk tls in
        (o.2 ≡ err rename_key) × (o.0 p.cert ≡ bytes cert_pem) × (o.0 p.key ≡ disk p.key)
  unfolding atomic_install install_valid install_files write_cert_step write_key_step
      rename_cert_step rename_key_step move_file put_file
  atomic_install-splits_pair p w cert_pem key_pem disk tls apart hv hc hk rc rk =
      ground (arith, bytes_eq_refl p.cert, bytes_eq_refl p.cert_tmp)
