-- ===== src/Acme/Account.antt =====
-- src/acme/account.rs: `load_or_create_account`. JSON and the ACME client are parameters.
use rustasgi.Base.{
  ℕ, Bool, true, false, not, List, [], ◌∷◌, ◌++◌, Option, none, some, if◌then◌else◌, ◌==◌, Result,
  ok, err, ◌>>=◌, ok_or, ◌≡◌,
}
use rustasgi.Base.Text.{codes}
use rustasgi.Tls.Config.{ReadFile, not_found, unreadable, bytes}
use rustasgi.Acme.Install.{Disk, Write, written, left, put_file, move_file}

pub record AccountData : Type 0 where
  pub credentials : List ℕ
  pub email : List ℕ
  pub directory : List ℕ

-- serde_json and instant_acme. What is printed can be parsed again.
pub record AcmeClient : Type 1 where
  pub Credentials : Type 0
  pub Account : Type 0
  pub print_data : AccountData → List ℕ
  pub parse_data : List ℕ → Option AccountData
  pub print_credentials : Credentials → Option (List ℕ)
  pub parse_credentials : List ℕ → Option Credentials
  pub from_credentials : Credentials → Option Account
  -- `Account::create` with a contact, at a directory.
  pub create : List ℕ → List ℕ → Option (Account × Credentials)
  pub parse-print_data : (d : AccountData) → parse_data (print_data d) ≡ some d
  pub parse-print_credentials :
      (c : Credentials) (s : List ℕ) → print_credentials c ≡ some s → parse_credentials s ≡ some c

pub data AccountError : Type 0 where
  read_failed parse_failed credentials_failed restore_failed create_failed create_dir_failed :
      AccountError
  serialize_failed write_failed rename_failed : AccountError

-- `dir.join(name)`.
unfoldable pub join : List ℕ → List ℕ → List ℕ
join [] name = name
join (c ∷ []) name = if c == b'/' then c ∷ name else c ∷ b'/' ∷ name
join (c ∷ d ∷ dir) name = c ∷ join (d ∷ dir) name

-- What the calls on the file system do.
pub record Saving : Type 0 where
  pub create_dir_ok : Bool
  pub write : Write
  pub rename_ok : Bool

module _ (client : AcmeClient) where
  -- The file is there.
  unfoldable pub load : List ℕ → Result AccountError client.Account
  load json = do
    acc_data ← ok_or (client.parse_data json) parse_failed
    creds ← ok_or (client.parse_credentials acc_data.credentials) credentials_failed
    ok_or (client.from_credentials creds) restore_failed

  abbrev pub Outcome : Type 0
  Outcome = Disk × Result AccountError client.Account

  unfoldable pub rename : List ℕ → List ℕ → Disk → client.Account → Bool → Outcome
  rename tmp path disk account true = (move_file tmp path disk, ok account)
  rename tmp path disk account false = (disk, err rename_failed)

  unfoldable pub write : List ℕ → List ℕ → Disk → client.Account → List ℕ → Saving → Write → Outcome
  unfolding rename
  write tmp path disk account json s (left f) = (put_file tmp f disk, err write_failed)
  write tmp path disk account json s written =
      rename tmp path (put_file tmp (bytes json) disk) account s.rename_ok

  unfoldable pub save :
      List ℕ → List ℕ → List ℕ → Disk → Saving → client.Account → Option (List ℕ) → Outcome
  unfolding write
  save dir email url disk s account none = (disk, err serialize_failed)
  save dir email url disk s account (some text) =
      write (join dir (codes "account.json.tmp")) (join dir (codes "account.json")) disk account
        (client.print_data (record { credentials = text; email = email; directory = url })) s
        s.write

  unfoldable pub create :
      List ℕ
      → List ℕ
      → List ℕ
      → Disk
      → Saving
      → Option (client.Account × client.Credentials)
      → Outcome
  unfolding save
  create dir email url disk s none = (disk, err create_failed)
  create dir email url disk s (some (account, credentials)) =
      if not s.create_dir_ok
      then (disk, err create_dir_failed)
      else save dir email url disk s account (client.print_credentials credentials)

  -- By what the path of the account file holds.
  unfoldable pub load_or_create : List ℕ → List ℕ → List ℕ → Disk → Saving → ReadFile → Outcome
  unfolding load create
  load_or_create dir email url disk s (bytes json) = (disk, load json)
  load_or_create dir email url disk s unreadable = (disk, err read_failed)
  load_or_create dir email url disk s not_found =
      create dir email url disk s (client.create (codes "mailto:" ++ email) url)

  unfoldable pub load_or_create_account : List ℕ → List ℕ → List ℕ → Disk → Saving → Outcome
  unfolding load_or_create
  load_or_create_account dir email url disk s =
      load_or_create dir email url disk s (disk (join dir (codes "account.json")))
