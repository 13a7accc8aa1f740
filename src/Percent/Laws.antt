-- ===== src/Percent/Laws.antt =====
-- Decoding undoes percent-encoding (src/asgi.rs: `percent_decode`).
use rustasgi.Base.{
  ℕ, ◌+◌, ◌-◌, ◌/◌, ◌%◌, ◌<◌, ◌≡◌, refl, ◌≢◌, Bool, false, List, [], ◌∷◌, ◌++◌, some, All, ltb,
  if◌then◌else◌, arith, Bool-cases, inl, inr, ap, ◌∙◌,
}
use rustasgi.Percent.{hex_val, decode_bytes}

-- The uppercase hexadecimal digit of a number below 16.
abbrev hex_digit : ℕ → ℕ
hex_digit n = if ltb n 10 then n + b'0' else n - 10 + b'A'

-- Percent-encoding (RFC 3986, section 2.1) of all bytes but those that `keep` takes.
pub encode : (ℕ → Bool) → List ℕ → List ℕ
encode keep [] = []
encode keep (b ∷ s) =
    if keep b
    then b ∷ encode keep s
    else b'%' ∷ hex_digit (b / 16) ∷ hex_digit (b % 16) ∷ encode keep s

hex_val-hex_digit : (n : ℕ) → n < 16 → hex_val (hex_digit n) ≡ some n
unfolding hex_val
hex_val-hex_digit n h = ground arith

-- A byte other than '%' stands for itself.
decode_bytes-literal : (b : ℕ) (s : List ℕ) → b ≢ b'%' → decode_bytes (b ∷ s) ≡ b ∷ decode_bytes s
unfolding decode_bytes
decode_bytes-literal b [] h = refl
decode_bytes-literal b (x ∷ []) h = refl
decode_bytes-literal b (x ∷ y ∷ s) h = ground arith

decode_bytes-escape :
    (b : ℕ) (s : List ℕ)
    → b < 256
    → decode_bytes (b'%' ∷ hex_digit (b / 16) ∷ hex_digit (b % 16) ∷ s) ≡ b ∷ decode_bytes s
unfolding decode_bytes
decode_bytes-escape b s h = ground (arith, hex_val-hex_digit (b / 16), hex_val-hex_digit (b % 16))

-- Decoding an encoded text, with any text behind it, gives back its bytes, whichever bytes the
-- encoder leaves as they are, '%' excepted.
pub decode_bytes-encode :
    (keep : ℕ → Bool) (s r : List ℕ)
    → keep b'%' ≡ false
    → All (λ b. b < 256) s
    → decode_bytes (encode keep s ++ r) ≡ s ++ decode_bytes r
unfolding encode
decode_bytes-encode keep [] r k h = refl
decode_bytes-encode keep (b ∷ s) r k h = elim (Bool-cases (keep b)) [
  | inl kept ↦ rw kept (
      rw (decode_bytes-literal b (encode keep s ++ r) (λ e. ground arith))
        (ap (λ t. b ∷ t) (decode_bytes-encode keep s r k h.1)))
  | inr other ↦ rw other (
      decode_bytes-escape b (encode keep s ++ r) h.0
      ∙ ap (λ t. b ∷ t) (decode_bytes-encode keep s r k h.1))
]
