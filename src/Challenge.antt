-- ===== src/Challenge.antt =====
-- src/tls/challenge.rs: the store of ACME HTTP-01 challenges. `Abstract` is the store by its
-- answers.
pub mod Laws
pub mod Abstract
use rustasgi.Base.{
  is_empty, ℕ, Bool, true, false, ◌&&◌, ◌||◌, List, [], ◌∷◌, Option, none, some, length, all, ltb,
  ◌==◌, if◌then◌else◌,
}
use rustasgi.Base.Text.{bytes_eq, contains, is_alphanumeric}

-- `token.contains("..")`.
pub contains_dots : List ℕ → Bool
contains_dots (a ∷ b ∷ s) = (a == b'.' && b == b'.') || contains_dots (b ∷ s)
contains_dots _ = false

abbrev pub is_token_char : ℕ → Bool
is_token_char c = is_alphanumeric c || c == b'-' || c == b'_'

unfoldable pub is_valid_token : List ℕ → Bool
unfolding contains_dots contains
is_valid_token token =
    if is_empty token || ltb 128 (length token)
    then false
    else if contains b'/' token || contains 0x5c token || contains_dots token
    then false
    else all is_token_char token

-- The `HashMap<String, String>` behind the lock: an association list, the newest entry first.
abbrev pub Entries : Type 0
Entries = List (List ℕ × List ℕ)

pub map_get : List ℕ → Entries → Option (List ℕ)
map_get k [] = none
map_get k ((j, v) ∷ m) = if bytes_eq j k then some v else map_get k m

pub map_remove : List ℕ → Entries → Entries
map_remove k [] = []
map_remove k ((j, v) ∷ m) = if bytes_eq j k then map_remove k m else (j, v) ∷ map_remove k m

unfoldable pub insert : List ℕ → List ℕ → Entries → Entries
unfolding map_remove
insert token auth m = if is_valid_token token then (token, auth) ∷ map_remove token m else m

unfoldable pub get : List ℕ → Entries → Option (List ℕ)
unfolding map_get
get token m = if is_valid_token token then map_get token m else none

unfoldable pub remove : List ℕ → Entries → Entries
unfolding map_remove
remove token m = map_remove token m
