-- ===== src/Boot/SettingsLaws.antt =====
-- What the environment can set (src/lib.rs, src/cli.rs).
use rustasgi.Base.{ℕ, ◌≡◌, refl, true, false, List, [], ◌∷◌, some, is_empty, All, map}
use rustasgi.Base.Text.{contains}
use rustasgi.Base.Words.{trim, join, split-join, all_without}
use rustasgi.Boot.Settings.{Env, Arguments, drop_empty, comma_list, list_setting, settings}

-- An item of a list in a variable: not empty, without commas, and without spaces at its ends.
abbrev pub IsItem : List ℕ → Type 0
IsItem s = (is_empty s ≡ false) × (contains b',' s ≡ false) × (trim s ≡ s)

trimmed : (parts : List (List ℕ)) → All IsItem parts → drop_empty (map trim parts) ≡ parts
trimmed [] h = refl
trimmed (p ∷ ps) ((e, c, t), hs) = rw (t, e, trimmed ps hs) refl

Items-all_without : (parts : List (List ℕ)) → All IsItem parts → all_without b',' parts ≡ true
Items-all_without [] h = refl
Items-all_without (p ∷ ps) ((e, c, t), hs) = rw (c, Items-all_without ps hs) refl

-- The items of a list are read back from their text with commas between, as the ACME domains and as
-- the SNI entries of a process that gets none as arguments.
settings-join :
    (env : Env) (a : Arguments) (part : List ℕ) (parts : List (List ℕ))
    → All IsItem (part ∷ parts)
    → a.acme_domains ≡ []
    → a.tls_sni ≡ []
    → env "RUSTWASGI_ACME_DOMAINS" ≡ some (join b',' (part ∷ parts))
    → env "RUSTWASGI_TLS_SNI" ≡ some (join b',' (part ∷ parts))
    → ((settings env a).acme_domains ≡ part ∷ parts) × ((settings env a).tls_sni ≡ part ∷ parts)
unfolding settings list_setting comma_list
settings-join env a part parts h d s ed es =
    rw (d, s, ed, es, split-join b',' part parts (Items-all_without (part ∷ parts) h))
      (trimmed (part ∷ parts) h, trimmed (part ∷ parts) h)
