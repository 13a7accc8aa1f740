-- ===== src/Base/Words.antt =====
-- Texts cut into parts and put together again, and the spaces at their ends. A text is the list of
-- its characters.
use rustasgi.Base.Tests.{leb, ◌==◌, if◌then◌else◌, Bool-cases}
use rustasgi.Base.Lists.{is_empty, length, length-append}
use rustasgi.Base.Text.{split, contains, bytes_eq, bytes_eq_sound, bytes_eq_refl}
use Prim.Native.Nat.{ℕ}
use mathlib.Core.Path.{◌≡◌, refl, ap}
use mathlib.Core.Logic.{inl, inr}
use mathlib.Core.Bool.{Bool, true, false, not, ◌&&◌, ◌||◌}
use mathlib.Core.Option.{Option, none, some}
use mathlib.Core.List.{List, [], ◌∷◌, ◌++◌}
use native.Mathlib.Omega.{arith}

-- `char::is_whitespace`, the Unicode property White_Space.
abbrev pub is_whitespace : ℕ → Bool
is_whitespace c =
    (leb 9 c && leb c 13)
    || c == 32
    || c == 133
    || c == 160
    || c == 5760
    || (leb 8192 c && leb c 8202)
    || c == 8232
    || c == 8233
    || c == 8239
    || c == 8287
    || c == 12288

-- `s.trim_start()`, `s.trim_end()` and `s.trim()`.
unfoldable pub trim_start : List ℕ → List ℕ
trim_start [] = []
trim_start (c ∷ s) = let rest = trim_start s in if is_whitespace c then rest else c ∷ s

unfoldable pub trim_end : List ℕ → List ℕ
trim_end [] = []
trim_end (c ∷ s) =
    let rest = trim_end s in if is_empty rest && is_whitespace c then [] else c ∷ rest

abbrev pub trim : List ℕ → List ℕ
trim s = trim_end (trim_start s)

-- `s.strip_suffix(p)`.
unfoldable pub strip_suffix : List ℕ → List ℕ → Option (List ℕ)
strip_suffix p [] = if is_empty p then some [] else none
strip_suffix p (c ∷ s) =
    let rest = strip_suffix p s in
    if bytes_eq p (c ∷ s) then some [] else elim rest [ some r ↦ some (c ∷ r) | none ↦ none ]

-- The parts with a separator between them.
unfoldable pub join : ℕ → List (List ℕ) → List ℕ
join sep [] = []
join sep (part ∷ []) = part
join sep (part ∷ next ∷ parts) = part ++ sep ∷ join sep (next ∷ parts)

-- The separator is in no part.
abbrev pub all_without : ℕ → List (List ℕ) → Bool
all_without sep [] = true
all_without sep (part ∷ parts) = not (contains sep part) && all_without sep parts

split-single :
    (sep : ℕ) (part : List ℕ) → contains sep part ≡ false → split (λ c. c == sep) part ≡ part ∷ []
unfolding split contains
split-single sep [] h = refl
split-single sep (c ∷ part) h = ground (arith, split-single sep part)

split-part :
    (sep : ℕ) (part s : List ℕ)
    → contains sep part ≡ false
    → split (λ c. c == sep) (part ++ sep ∷ s) ≡ part ∷ split (λ c. c == sep) s
unfolding split contains
split-part sep [] s h = ground arith
split-part sep (c ∷ part) s h = ground (arith, split-part sep part s)

-- Cutting at the separators gives the parts back.
pub split-join :
    (sep : ℕ) (part : List ℕ) (parts : List (List ℕ))
    → all_without sep (part ∷ parts) ≡ true
    → split (λ c. c == sep) (join sep (part ∷ parts)) ≡ part ∷ parts
unfolding join
split-join sep part [] h = split-single sep part (ground arith)
split-join sep part (next ∷ parts) h =
    ground (arith, split-part sep part (join sep (next ∷ parts)), split-join sep next parts)

-- A text does not end behind itself.
bytes_eq-longer : (p s : List ℕ) (c : ℕ) → bytes_eq p (c ∷ s ++ p) ≡ false
bytes_eq-longer p s c = elim (Bool-cases (bytes_eq p (c ∷ s ++ p))) [
  | inr h ↦ h
  | inl h ↦
      let e = ap length (bytes_eq_sound p (c ∷ s ++ p) h) in
      absurd (omega (arith, e, length-append s p))
]

pub strip_suffix-append : (p s : List ℕ) → strip_suffix p (s ++ p) ≡ some s
unfolding strip_suffix
strip_suffix-append [] [] = refl
strip_suffix-append (c ∷ p) [] = rw (bytes_eq_refl (c ∷ p)) refl
strip_suffix-append p (c ∷ s) = rw (bytes_eq-longer p s c, strip_suffix-append p s) refl
