-- ===== src/Tests/Accounts.antt =====
-- The ACME account (src/acme/account.rs), with a file format that can be read back.
use rustasgi.Base.{
  ℕ, ◌+◌, ◌-◌, ◌≡◌, refl, List, [], ◌∷◌, Option, some, if◌then◌else◌, ◌==◌, ok, arith, true,
}
use rustasgi.Base.Text.{codes}
use rustasgi.Tls.Config.{not_found}
use rustasgi.Acme.Install.{Disk, written}
use rustasgi.Acme.Account.{AccountData, AcmeClient, Saving, load_or_create_account}
use rustasgi.Acme.AccountLaws.{load_or_create_account-reloads}

-- Three texts behind each other, each with a 0 at its end.
abbrev encode : List ℕ → List ℕ → List ℕ
encode [] rest = 0 ∷ rest
encode (c ∷ s) rest = (c + 1) ∷ encode s rest

abbrev decode : List ℕ → List ℕ × List ℕ
decode [] = ([], [])
decode (n ∷ s) = let later = decode s in if n == 0 then ([], s) else ((n - 1) ∷ later.0, later.1)

decode-encode : (s rest : List ℕ) → decode (encode s rest) ≡ (s, rest)
decode-encode [] rest = refl
decode-encode (c ∷ s) rest = ground (arith, decode-encode s rest)

abbrev print : AccountData → List ℕ
print d = encode d.credentials (encode d.email (encode d.directory []))

abbrev parse : List ℕ → Option AccountData
parse s =
    let first = decode s in
    let second = decode first.1 in
    some (record { credentials = first.0; email = second.0; directory = (decode second.1).0 })

pub parse-print : (d : AccountData) → parse (print d) ≡ some d
parse-print d =
    rw
      (
        decode-encode d.credentials (encode d.email (encode d.directory [])),
        decode-encode d.email (encode d.directory []),
        decode-encode d.directory [],
      )
      refl

pub some-inj : (c s : List ℕ) → some c ≡ some s → some s ≡ some c
some-inj c s h = cc

abbrev pub client : AcmeClient
client = record {
  Credentials = List ℕ;
  Account = List ℕ;
  print_data = print;
  parse_data = parse;
  print_credentials = λ c. some c;
  parse_credentials = λ s. some s;
  from_credentials = λ c. some c;
  create = λ contact url. some (url, url);
  parse-print_data = parse-print;
  parse-print_credentials = some-inj;
}

abbrev empty_disk : Disk
empty_disk path = not_found

abbrev pub saving : Saving
saving = record { create_dir_ok = true; write = written; rename_ok = true }

-- The account of a staging directory is used although production is asked for.
load_or_create_account-reloads_example :
    let (disk1, r) =
      load_or_create_account client
        (codes "acme")
        (codes "a@b")
        (codes "staging")
        empty_disk
        saving in
    (r ≡ ok (codes "staging"))
    × (load_or_create_account client (codes "acme") (codes "a@b") (codes "production") disk1 saving
        ≡ (disk1, ok (codes "staging")))
load_or_create_account-reloads_example =
    load_or_create_account-reloads client (codes "acme") (codes "a@b") (codes "staging") empty_disk
      saving saving (codes "staging") (codes "staging") (codes "staging") (codes "a@b")
      (codes "production") refl refl refl refl refl refl
