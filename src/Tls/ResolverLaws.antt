-- ===== src/Tls/ResolverLaws.antt =====
-- Which certificate a client gets (src/tls/resolver.rs).
use rustasgi.Base.{ℕ, ◌≡◌, refl, Bool, List, [], ◌∷◌, none, some, if◌then◌else◌, arith}
use rustasgi.Base.Text.{bytes_eq, to_ascii_lowercase, to_lower}
use rustasgi.Tls.Resolver.{SniResolver, add, resolve}

to_ascii_lowercase_idem :
    (s : List ℕ) → to_ascii_lowercase (to_ascii_lowercase s) ≡ to_ascii_lowercase s
unfolding to_ascii_lowercase
to_ascii_lowercase_idem [] = refl
to_ascii_lowercase_idem (c ∷ s) = cc (lower_twice c, to_ascii_lowercase_idem s)
  where
    lower_twice : (c : ℕ) → to_lower (to_lower c) ≡ to_lower c
    lower_twice c = ground arith

module _ {ℓ} {C : Type ℓ} where
  -- After a name was added, a client that asks for it, in any case of letters, gets its
  -- certificate; a client that asks for another name, or for none, gets what it got before.
  pub resolve-add :
      (is_dns_name : List ℕ → Bool) (name asked : List ℕ) (c : C) (r r' : SniResolver C)
      → add is_dns_name name c r ≡ some r'
      → (resolve (some asked) r' ≡ (
          if bytes_eq (to_ascii_lowercase name) (to_ascii_lowercase asked)
          then some c
          else resolve (some asked) r))
        × (resolve none r' ≡ resolve none r)
  unfolding resolve add
  resolve-add is_dns_name name asked c r r' h = (ground arith, ground arith)
