-- ===== src/Acme/AccountLaws.antt =====
-- An account that was saved is loaded again (src/acme/account.rs).
use rustasgi.Base.{
  ℕ, ◌≡◌, refl, ap, ◌∙◌, Bool, true, false, not, List, ◌++◌, some, if◌then◌else◌, ok, ok_or, arith,
}
use rustasgi.Base.Text.{codes, bytes_eq, bytes_eq_refl}
use rustasgi.Tls.Config.{ReadFile, not_found, bytes}
use rustasgi.Acme.Install.{Disk, written, put_file, move_file}
use rustasgi.Acme.PathLaws.{join-apart}
use rustasgi.Acme.Account.{
  AcmeClient, restore_failed, join, Saving, load, load_or_create, rename, write, save, create,
  load_or_create_account,
}

-- A file that is written beside and moved into place.
move_file-put_file :
    (tmp path : List ℕ) (f : ReadFile) (disk : Disk)
    → bytes_eq tmp path ≡ false
    → move_file tmp path (put_file tmp f disk) path ≡ f
unfolding move_file put_file
move_file-put_file tmp path f disk h = rw (h, bytes_eq_refl path, bytes_eq_refl tmp) refl

if_false {ℓ} : {A : Type ℓ} (b : Bool) (x y : A) → b ≡ false → (if b then x else y) ≡ y
if_false true x y h = absurd cc
if_false false x y h = refl

module _ (client : AcmeClient) (dir email url : List ℕ) where
  abbrev saved : List ℕ → Disk → Disk
  saved text disk =
      let tmp = join dir (codes "account.json.tmp") in
      move_file tmp (join dir (codes "account.json")) (
        put_file tmp
          (bytes
            (client.print_data (record { credentials = text; email = email; directory = url })))
          disk)

  created :
      (disk : Disk) (s : Saving) (account : client.Account) (creds : client.Credentials)
      (text : List ℕ)
      → disk (join dir (codes "account.json")) ≡ not_found
      → client.create (codes "mailto:" ++ email) url ≡ some (account, creds)
      → client.print_credentials creds ≡ some text
      → s.create_dir_ok ≡ true
      → s.write ≡ written
      → s.rename_ok ≡ true
      → load_or_create_account client dir email url disk s ≡ (saved text disk, ok account)
  unfolding load_or_create_account load_or_create create save write rename
  created disk s account creds text absent made printed d w r =
      ap (load_or_create client dir email url disk s) absent
      ∙ ap (create client dir email url disk s) made
      ∙ if_false (not s.create_dir_ok) _ _ (ap not d)
      ∙ ap (save client dir email url disk s account) printed
      ∙ ap (write client _ _ disk account _ s) w
      ∙ ap (rename client _ _ _ account) r

  -- The data that was saved is loaded.
  reloaded :
      (disk : Disk) (s : Saving) (creds : client.Credentials) (text email' url' : List ℕ)
      → client.print_credentials creds ≡ some text
      → load_or_create_account client dir email' url' (saved text disk) s
        ≡ (saved text disk, ok_or (client.from_credentials creds) restore_failed)
  unfolding load_or_create_account load_or_create load
  reloaded disk s creds text email' url' printed =
      ap (load_or_create client dir email' url' (saved text disk) s) (
        move_file-put_file _ _ _ disk
          (join-apart dir (codes "account.json.tmp") (codes "account.json") (omega arith)))
      ∙ ap (λ r. (saved text disk, r))
          (rw
            (
              client.parse-print_data
                  (record { credentials = text; email = email; directory = url }),
              client.parse-print_credentials creds text printed,
            )
            refl)

  -- An account that was created and saved is the account of every later call: whatever email and
  -- directory the later call has, it creates none, restores the saved credentials, and changes no
  -- file.
  pub load_or_create_account-reloads :
      (disk : Disk) (s s' : Saving) (account : client.Account) (creds : client.Credentials)
      (text email' url' : List ℕ)
      → disk (join dir (codes "account.json")) ≡ not_found
      → client.create (codes "mailto:" ++ email) url ≡ some (account, creds)
      → client.print_credentials creds ≡ some text
      → s.create_dir_ok ≡ true
      → s.write ≡ written
      → s.rename_ok ≡ true
      → let (disk1, r) = load_or_create_account client dir email url disk s in
        (r ≡ ok account)
        × (load_or_create_account client dir email' url' disk1 s'
            ≡ (disk1, ok_or (client.from_credentials creds) restore_failed))
  load_or_create_account-reloads disk s s' account creds text email' url' absent made printed d w
        r =
      rw (created disk s account creds text absent made printed d w r)
        (refl, reloaded disk s' creds text email' url' printed)
