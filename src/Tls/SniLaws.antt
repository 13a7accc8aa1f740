-- ===== src/Tls/SniLaws.antt =====
-- Which of several certificates a client gets (src/tls/config.rs, src/tls/resolver.rs).
use rustasgi.Base.{
  ℕ, ◌≡◌, refl, sym, ap, ◌∙◌, Bool, List, [], ◌∷◌, Option, none, some, if◌then◌else◌, Result, ok,
  err, ok_or, >>=-eq-ok, ok_or-eq-ok, arith,
}
use rustasgi.Base.Text.{bytes_eq, to_ascii_lowercase}
use rustasgi.Tls.Config.{TlsError, rustls, ReadFile, TlsLib}
use rustasgi.Tls.Resolver.{SniResolver, new, add, set_default, find, resolve}
use rustasgi.Tls.ResolverLaws.{resolve-add}
use rustasgi.Tls.Sni.{SniEntry, load_pair, add_entries, add_default, sni_resolver}
use Prim.Native.String.{String}

module _ {ℓ} {C : Type ℓ} where
  resolve-new : (n : Option (List ℕ)) → resolve n (new {C = C}) ≡ none
  unfolding resolve find new
  resolve-new none = refl
  resolve-new (some n) = refl

  resolve-set_default : (n : Option (List ℕ)) (p : C) → resolve n (set_default p new) ≡ some p
  unfolding resolve find new set_default
  resolve-set_default none p = refl
  resolve-set_default (some n) p = refl

module _ (lib : TlsLib) (is_dns_name : List ℕ → Bool) (bad_name : String)
    (with_cert_resolver : SniResolver (List (List ℕ) × lib.Key) → lib.Config) where
  -- The name of a client hello, in any case of letters.
  abbrev pub is_for : List ℕ → SniEntry → Bool
  is_for asked e = bytes_eq (to_ascii_lowercase e.domain) (to_ascii_lowercase asked)

  abbrev pub pair_of : Result TlsError (List (List ℕ) × lib.Key) → Option (List (List ℕ) × lib.Key)
  pair_of (ok p) = some p
  pair_of (err e) = none

  -- The pair of the last entry for the name, and what is given where there is none.
  abbrev pub last_for :
      (List ℕ → ReadFile)
      → List ℕ
      → List SniEntry
      → Option (List (List ℕ) × lib.Key)
      → Option (List (List ℕ) × lib.Key)
  last_for disk asked [] otherwise = otherwise
  last_for disk asked (e ∷ es) otherwise = last_for disk asked es (
      if is_for asked e
      then pair_of
          (load_pair lib is_dns_name bad_name with_cert_resolver disk e.cert_path e.key_path)
      else otherwise)

  add_entries-resolve :
      (disk : List ℕ → ReadFile) (es : List SniEntry) (r r' : SniResolver (List (List ℕ) × lib.Key))
      (asked : List ℕ)
      → add_entries lib is_dns_name bad_name with_cert_resolver disk es r ≡ ok r'
      → (resolve (some asked) r' ≡ last_for disk asked es (resolve (some asked) r))
        × (resolve none r' ≡ resolve none r)
  unfolding add_entries
  add_entries-resolve disk [] r r' asked h =
      let same : r' ≡ r = cc in
      (ap (λ x. resolve (some asked) x) same, ap (λ x. resolve none x) same)
  add_entries-resolve disk (e ∷ es) r r' asked h =
      let (pair, loaded, h1) =
        >>=-eq-ok
          (load_pair lib is_dns_name bad_name with_cert_resolver disk e.cert_path e.key_path) _ h in
      let (r1, added, h2) =
        >>=-eq-ok (ok_or (add is_dns_name e.domain pair r) (rustls bad_name)) _ h1 in
      let (ih, ih_none) = add_entries-resolve disk es r1 r' asked h2 in
      let (named, other) =
        resolve-add is_dns_name e.domain asked pair r r1
          (ok_or-eq-ok (add is_dns_name e.domain pair r) (rustls bad_name) added) in
      (
        ih
            ∙ ap (λ x. last_for disk asked es x)
                (named
                  ∙ ap (λ l. if is_for asked e then pair_of l else resolve (some asked) r)
                      (sym loaded)),
        ih_none ∙ other,
      )

  add-set_default :
      (name : List ℕ) (pair p : List (List ℕ) × lib.Key)
      (r r' : SniResolver (List (List ℕ) × lib.Key))
      → add is_dns_name name pair r ≡ some r'
      → add is_dns_name name pair (set_default p r) ≡ some (set_default p r')
  unfolding add set_default
  add-set_default name pair p r r' h = ground arith

  add_entries-set_default :
      (disk : List ℕ → ReadFile) (es : List SniEntry) (p : List (List ℕ) × lib.Key)
      (r r' : SniResolver (List (List ℕ) × lib.Key))
      → add_entries lib is_dns_name bad_name with_cert_resolver disk es r ≡ ok r'
      → add_entries lib is_dns_name bad_name with_cert_resolver disk es (set_default p r)
        ≡ ok (set_default p r')
  unfolding add_entries
  add_entries-set_default disk [] p r r' h = cc
  add_entries-set_default disk (e ∷ es) p r r' h =
      let (pair, loaded, h1) =
        >>=-eq-ok
          (load_pair lib is_dns_name bad_name with_cert_resolver disk e.cert_path e.key_path) _ h in
      let (r1, added, h2) =
        >>=-eq-ok (ok_or (add is_dns_name e.domain pair r) (rustls bad_name)) _ h1 in
      let named = ok_or-eq-ok (add is_dns_name e.domain pair r) (rustls bad_name) added in
      rw (loaded, add-set_default e.domain pair p r r1 named, ok_or)
        (add_entries-set_default disk es p r1 r' h2)

  -- The pair of the default certificate, if one is configured.
  abbrev pub default_pair :
      (List ℕ → ReadFile) → Option (List ℕ × List ℕ) → Option (List (List ℕ) × lib.Key)
  default_pair disk none = none
  default_pair disk (some (cert_path, key_path)) =
      pair_of (load_pair lib is_dns_name bad_name with_cert_resolver disk cert_path key_path)

  -- Once the configured entries are loaded, a client that names a server, in any case of letters,
  -- gets the pair of the last entry for that name, or the default pair where no entry is for it;
  -- a client that names none gets the default pair.
  pub sni_resolver-resolve :
      (disk : List ℕ → ReadFile) (es : List SniEntry) (d : Option (List ℕ × List ℕ))
      (r : SniResolver (List (List ℕ) × lib.Key)) (asked : List ℕ)
      → sni_resolver lib is_dns_name bad_name with_cert_resolver disk es d ≡ ok r
      → (resolve (some asked) r ≡ last_for disk asked es (default_pair disk d))
        × (resolve none r ≡ default_pair disk d)
  unfolding sni_resolver add_default
  sni_resolver-resolve disk es none r asked h =
      let (r1, all, h1) =
        >>=-eq-ok (add_entries lib is_dns_name bad_name with_cert_resolver disk es new) _ h in
      let same : r1 ≡ r = cc in
      let (named, other) = add_entries-resolve disk es new r asked (all ∙ ap ok same) in
      (
        named ∙ ap (λ o. last_for disk asked es o) (resolve-new (some asked)),
        other ∙ resolve-new none,
      )
  sni_resolver-resolve disk es (some (c, k)) r asked h =
      let (r1, all, h1) =
        >>=-eq-ok (add_entries lib is_dns_name bad_name with_cert_resolver disk es new) _ h in
      let (pair, loaded, h2) =
        >>=-eq-ok (load_pair lib is_dns_name bad_name with_cert_resolver disk c k) _ h1 in
      let same : set_default pair r1 ≡ r = cc in
      let given : (n : Option (List ℕ))
          → resolve n (set_default pair new) ≡ default_pair disk (some (c, k)) =
        λ n. resolve-set_default n pair ∙ sym (ap pair_of loaded) in
      let (named, other) =
        add_entries-resolve disk es (set_default pair new) r asked
          (add_entries-set_default disk es pair new r1 all ∙ ap ok same) in
      (named ∙ ap (λ o. last_for disk asked es o) (given (some asked)), other ∙ given none)
