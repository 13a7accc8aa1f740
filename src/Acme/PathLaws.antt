-- ===== src/Acme/PathLaws.antt =====
-- The files of the storage directory are apart (src/acme/account.rs, src/acme/renewal.rs).
use rustasgi.Base.{
  ℕ, ◌+◌, ◌≡◌, ◌≢◌, ap, Bool, false, List, [], ◌∷◌, length, arith, Bool-cases, inl, inr,
}
use rustasgi.Base.Text.{bytes_eq, bytes_eq_sound}
use rustasgi.Acme.Account.{join}
use rustasgi.Acme.InstallLaws.{AreApart, IsInstalled, atomic_install-IsInstalled}
use rustasgi.Acme.Install.{Disk, Weather, atomic_install}
use rustasgi.Acme.Task.{paths_of}
use rustasgi.Tls.Config.{TlsLib}
use rustasgi.Tls.State.{TlsState}

length-join : (dir a b : List ℕ) → length (join dir a) + length b ≡ length (join dir b) + length a
unfolding join
length-join [] a b = omega arith
length-join (c ∷ []) a b = ground arith
length-join (c ∷ d ∷ dir) a b = omega (arith, length-join (d ∷ dir) a b)

-- Names of different lengths are different files of a directory.
pub join-apart :
    (dir a b : List ℕ) → length a ≢ length b → bytes_eq (join dir a) (join dir b) ≡ false
join-apart dir a b h = elim (Bool-cases (bytes_eq (join dir a) (join dir b))) [
  | inr e ↦ e
  | inl e ↦ absurd (
      h (
        omega (arith, length-join dir a b, ap length (bytes_eq_sound (join dir a) (join dir b) e))))
]

paths_of-AreApart : (dir : List ℕ) → AreApart (paths_of dir)
unfolding paths_of
paths_of-AreApart dir = record {
  cert_key = join-apart dir _ _ (omega arith);
  key_cert = join-apart dir _ _ (omega arith);
  cert_tmp_cert = join-apart dir _ _ (omega arith);
  cert_tmp_key = join-apart dir _ _ (omega arith);
  key_tmp_cert = join-apart dir _ _ (omega arith);
  key_tmp_key = join-apart dir _ _ (omega arith);
  cert_key_tmp = join-apart dir _ _ (omega arith);
  cert_tmp_key_tmp = join-apart dir _ _ (omega arith);
  key_tmp_cert_tmp = join-apart dir _ _ (omega arith);
}

-- In every storage directory an installation by the renewal task ends in one of the outcomes of
-- `IsInstalled`.
renewal-IsInstalled :
    (lib : TlsLib) (x509_ok : List ℕ → Bool) (dir : List ℕ) (w : Weather)
    (cert_pem key_pem : List ℕ) (disk : Disk) (tls : TlsState lib)
    → IsInstalled lib x509_ok
        (paths_of dir)
        cert_pem
        key_pem
        disk
        tls
        (atomic_install lib x509_ok (paths_of dir) w cert_pem key_pem disk tls)
renewal-IsInstalled lib x509_ok dir w cert_pem key_pem disk tls =
    atomic_install-IsInstalled lib x509_ok (paths_of dir) w cert_pem key_pem disk tls
      (paths_of-AreApart dir)
