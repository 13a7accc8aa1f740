-- ===== src/Percent.antt =====
-- src/asgi.rs: `percent_decode` and `hex_val`.
pub mod Laws
use rustasgi.Base.{
  ℕ, ◌+◌, ◌*◌, ◌-◌, ◌&&◌, List, [], ◌∷◌, Option, none, some, leb, if◌then◌else◌, ◌==◌,
}

unfoldable pub hex_val : ℕ → Option ℕ
hex_val b =
    if leb b'0' b && leb b b'9'
    then some (b - b'0')
    else if leb b'a' b && leb b b'f'
    then some (b - b'a' + 10)
    else if leb b'A' b && leb b b'F'
    then some (b - b'A' + 10)
    else none

-- The byte that an escape stands for, if both digits are hexadecimal.
abbrev escape : ℕ → Option ℕ → Option ℕ → Option ℕ
escape b (some h) (some l) = if b == b'%' then some (h * 16 + l) else none
escape b _ _ = none

-- The `while` loop over `bytes`: the list is `bytes[i..]`, and `i + 2 < bytes.len()` says that two
-- more bytes stand behind the head.
pub decode_bytes : List ℕ → List ℕ
decode_bytes (b ∷ h ∷ l ∷ s) =
    let literal = b ∷ decode_bytes (h ∷ l ∷ s) in
    let rest = decode_bytes s in
    elim (escape b (hex_val h) (hex_val l)) [ some v ↦ v ∷ rest | none ↦ literal ]
decode_bytes (b ∷ s) = b ∷ decode_bytes s
decode_bytes [] = []

-- The decoded bytes are read as UTF-8 by `String::from_utf8_lossy`, a parameter.
unfoldable pub percent_decode : (List ℕ → List ℕ) → List ℕ → List ℕ
unfolding decode_bytes
percent_decode from_utf8_lossy input = from_utf8_lossy (decode_bytes input)
