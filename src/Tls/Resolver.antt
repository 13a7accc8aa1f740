-- ===== src/Tls/Resolver.antt =====
-- src/tls/resolver.rs: certificates by server name.
use rustasgi.Base.{ℕ, List, [], ◌∷◌, Option, none, some, Bool, if◌then◌else◌}
use rustasgi.Base.Text.{bytes_eq, to_ascii_lowercase}

-- `by_name` is an association list, the newest entry first. Certificates are of any type `C`.
pub record SniResolver {ℓ} (C : Type ℓ) : Type ℓ where
  pub by_name : List (List ℕ × C)
  pub fallback : Option C

module _ {ℓ} {C : Type ℓ} where
  unfoldable pub find : List ℕ → List (List ℕ × C) → Option C
  find k [] = none
  find k ((j, c) ∷ m) = if bytes_eq j k then some c else find k m

  unfoldable pub new : SniResolver C
  new = record { by_name = []; fallback = none }

  -- `ServerName::try_from(name)` decides whether the name is good.
  unfoldable pub add : (List ℕ → Bool) → List ℕ → C → SniResolver C → Option (SniResolver C)
  add is_dns_name name c r =
      if is_dns_name name
      then some
          (record { by_name = (to_ascii_lowercase name, c) ∷ r.by_name; fallback = r.fallback })
      else none

  unfoldable pub set_default : C → SniResolver C → SniResolver C
  set_default c r = record { by_name = r.by_name; fallback = some c }

  or_fallback : Option C → Option C → Option C
  or_fallback (some c) d = some c
  or_fallback none d = d

  -- The name of the client hello, if it sent one.
  unfoldable pub resolve : Option (List ℕ) → SniResolver C → Option C
  unfolding or_fallback find
  resolve none r = r.fallback
  resolve (some name) r = or_fallback (find (to_ascii_lowercase name) r.by_name) r.fallback
