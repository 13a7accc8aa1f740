-- ===== src/Challenge/Laws.antt =====
-- What the challenge store guarantees (src/tls/challenge.rs).
use rustasgi.Base.{
  ℕ, ◌≤◌, ◌<◌, ◌≡◌, refl, ◌↔◌, ◌&&◌, true, false, List, [], ◌∷◌, some, none, length, all, All,
  if◌then◌else◌, arith,
}
use rustasgi.Base.Text.{bytes_eq, bytes_eq_iff, contains}
use rustasgi.Challenge.{
  contains_dots, is_token_char, is_valid_token, Entries, map_get, map_remove, insert, get, remove,
}

all_token-no_slash : (s : List ℕ) → all is_token_char s ≡ true → contains b'/' s ≡ false
unfolding contains
all_token-no_slash [] h = refl
all_token-no_slash (c ∷ s) h = ground (arith, all_token-no_slash s)

all_token-no_backslash : (s : List ℕ) → all is_token_char s ≡ true → contains 0x5c s ≡ false
unfolding contains
all_token-no_backslash [] h = refl
all_token-no_backslash (c ∷ s) h = ground (arith, all_token-no_backslash s)

all_token-no_dots : (s : List ℕ) → all is_token_char s ≡ true → contains_dots s ≡ false
unfolding contains_dots
all_token-no_dots [] h = refl
all_token-no_dots (c ∷ []) h = refl
all_token-no_dots (c ∷ d ∷ s) h = ground (arith, all_token-no_dots (d ∷ s))

-- The grammar of a token: 1 to 128 base64url characters.
pub record IsToken (s : List ℕ) : Type 0 where
  pub nonempty : 0 < length s
  pub short : length s ≤ 128
  pub base64url : all is_token_char s ≡ true

-- `is_valid_token` accepts exactly the texts of 1 to 128 base64url characters; its three tests
-- against path traversal reject nothing more.
pub is_valid_token_iff : (s : List ℕ) → (is_valid_token s ≡ true) ↔ IsToken s
unfolding is_valid_token
is_valid_token_iff [] = ground arith
is_valid_token_iff (c ∷ s) =
    ground
      (arith, all_token-no_slash (c ∷ s), all_token-no_backslash (c ∷ s), all_token-no_dots (c ∷ s))

map_get-map_remove :
    (k j : List ℕ) (m : Entries)
    → map_get j (map_remove k m) ≡ (if bytes_eq k j then none else map_get j m)
unfolding map_get map_remove
map_get-map_remove k j [] = ground arith
map_get-map_remove k j ((i, v) ∷ m) =
    ground (arith, bytes_eq_iff k j, bytes_eq_iff i k, bytes_eq_iff i j, map_get-map_remove k j m)

-- A lookup after an insertion: the new authorisation for the inserted token if that is valid, and
-- what was there before for any other token.
pub get-insert :
    (k j auth : List ℕ) (m : Entries)
    → get j (insert k auth m) ≡ (if is_valid_token k && bytes_eq k j then some auth else get j m)
unfolding get insert map_get
get-insert k j auth m = ground (arith, bytes_eq_iff k j, map_get-map_remove k j m)

-- A lookup after a removal finds nothing for the removed token, and is unchanged for any other.
pub get-remove :
    (k j : List ℕ) (m : Entries) → get j (remove k m) ≡ (if bytes_eq k j then none else get j m)
unfolding get remove
get-remove k j m = ground (arith, map_get-map_remove k j m)

-- Every key is a valid token, and stands there once.
abbrev IsFresh : List ℕ → Entries → Type 0
IsFresh k m = All (λ e. bytes_eq e.0 k ≡ false) m

abbrev IsStore : Entries → Type 0
IsStore [] = Unit
IsStore ((k, v) ∷ m) = (is_valid_token k ≡ true) × IsFresh k m × IsStore m

map_remove-IsFresh : (k j : List ℕ) (m : Entries) → IsFresh j m → IsFresh j (map_remove k m)
unfolding map_remove
map_remove-IsFresh k j [] h = tt
map_remove-IsFresh k j ((i, v) ∷ m) h = ground (arith, map_remove-IsFresh k j m h.1)

map_remove-IsFresh_self : (k : List ℕ) (m : Entries) → IsFresh k (map_remove k m)
unfolding map_remove
map_remove-IsFresh_self k [] = tt
map_remove-IsFresh_self k ((i, v) ∷ m) = ground (arith, map_remove-IsFresh_self k m)

map_remove-IsStore : (k : List ℕ) (m : Entries) → IsStore m → IsStore (map_remove k m)
unfolding map_remove
map_remove-IsStore k [] h = tt
map_remove-IsStore k ((i, v) ∷ m) h =
    ground (arith, map_remove-IsFresh k i m h.1, map_remove-IsStore k m h.2)

-- Inserting, whatever the token, and removing keep the store's keys valid tokens, each once.
insert-IsStore :
    (k auth : List ℕ) (m : Entries) → IsStore m → IsStore (insert k auth m) × IsStore (remove k m)
unfolding insert remove
insert-IsStore k auth m h = ground (arith, map_remove-IsFresh_self k m, map_remove-IsStore k m h)
