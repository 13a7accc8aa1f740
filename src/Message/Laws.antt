-- ===== src/Message/Laws.antt =====
-- What a message that `parse_send_message` accepts looks like (src/asgi.rs).
use rustasgi.Base.{
  ℕ, ◌≤◌, ◌≡◌, refl, ◌≢◌, ◌↔◌, ◌⊎◌, sym, ap, ◌∙◌, inl, inr, Bool, true, false, not, List, [], ◌∷◌,
  Option, none, some, any, All, if◌then◌else◌, ok, guard, ok_or, >>=-eq-ok, ok_or-eq-ok, Bool-cases,
  Option-cases, arith,
}
use Prim.Native.String.{String}
use rustasgi.Base.Text.{bytes_eq, bytes_eq_iff, is_upper}
use rustasgi.Python.{raised, PyApi}
use rustasgi.Message.{
  Header, start, is_pseudo, transfer_encoding, as_bytes, bytes_or, pair_of_items,
  extract_header_pair, parse_headers, headers_of, parse_start, parse_send_message,
}

-- The spelling that ASGI asks of a response header's name.
abbrev pub IsSpelled : Header → Type 0
IsSpelled h = (any is_upper h.0 ≡ false) × (is_pseudo h.0 ≡ false)

-- The headers without those named `transfer-encoding`, which the server sets itself.
abbrev pub strip_framing : List Header → List Header
strip_framing [] = []
strip_framing (h ∷ hs) =
    if bytes_eq h.0 transfer_encoding then strip_framing hs else h ∷ strip_framing hs

guard-eq-ok {ℓ} : {E : Type ℓ} (b : Bool) (e : E) {u : Unit {0}} → guard b e ≡ ok u → b ≡ true
guard-eq-ok true e h = refl
guard-eq-ok false e h = cc

module _ (py : PyApi) where
  open py use {Obj, as_sequence, as_py_bytes, as_py_bytearray, is_none}

  -- What stands for a byte string: `bytes`, `bytearray`, and `None` for the empty one.
  abbrev pub IsBytes : Obj → List ℕ → Type 0
  IsBytes o b =
      (as_py_bytes o ≡ some b)
      ⊎ ((as_py_bytes o ≡ none) × (as_py_bytearray o ≡ some b))
      ⊎ ((as_py_bytes o ≡ none) × (as_py_bytearray o ≡ none) × (is_none o ≡ true) × (b ≡ []))

  -- A sequence of two items that stand for byte strings.
  abbrev pub IsPair : Obj → Header → Type 0
  IsPair o h =
      (n v : Obj) × (as_sequence o ≡ some (some n ∷ some v ∷ [])) × IsBytes n h.0 × IsBytes v h.1

  -- Each item is a header pair, and they are `hs` in this order, all spelled as ASGI asks.
  abbrev pub Accepts : List (Option Obj) → List Header → Type 0
  Accepts [] [] = Unit
  Accepts [] (_ ∷ _) = ⊥
  Accepts (_ ∷ _) [] = ⊥
  Accepts (item ∷ items) (h ∷ hs) =
      ((o : Obj) × (item ≡ some o) × IsPair o h) × IsSpelled h × Accepts items hs

  bytes_or_sound : (o : Obj) (m : String) (b : List ℕ) → bytes_or py o m ≡ ok b → IsBytes o b
  unfolding bytes_or as_bytes
  bytes_or_sound o m b e = ground arith

  bytes_or_complete : (o : Obj) (m : String) (b : List ℕ) → IsBytes o b → bytes_or py o m ≡ ok b
  unfolding bytes_or as_bytes
  bytes_or_complete o m b w = ground arith

  items_sound :
      (items : List (Option Obj)) (h : Header)
      → pair_of_items py items ≡ ok h
      → (n v : Obj) × (items ≡ some n ∷ some v ∷ []) × IsBytes n h.0 × IsBytes v h.1
  unfolding pair_of_items
  items_sound [] h e = cc
  items_sound (n ∷ []) h e = cc
  items_sound (n ∷ v ∷ w ∷ ws) h e = cc
  items_sound (none ∷ v ∷ []) h e = cc
  items_sound (some n ∷ none ∷ []) h e = let (name, b, e1) = >>=-eq-ok (bytes_or py n _) _ e in cc
  items_sound (some n ∷ some v ∷ []) h e =
      let (name, b, e1) = >>=-eq-ok (bytes_or py n _) _ e in
      let (value, c, e2) = >>=-eq-ok (bytes_or py v _) _ e1 in
      (
        n,
        v,
        refl,
        ground (arith, bytes_or_sound n _ name b),
        ground (arith, bytes_or_sound v _ value c),
      )

  extract_header_pair_sound : (o : Obj) (h : Header) → extract_header_pair py o ≡ ok h → IsPair o h
  unfolding extract_header_pair
  extract_header_pair_sound o h e = elim (Option-cases (as_sequence o)) [
    | inl lacks ↦ absurd (ground arith)
    | inr (items, is) ↦
        let (n, v, two, a, b) = items_sound items h (ground arith) in (n, v, is ∙ ap some two, a, b)
  ]

  items_complete :
      (n v : Obj) (h : Header)
      → IsBytes n h.0
      → IsBytes v h.1
      → pair_of_items py (some n ∷ some v ∷ []) ≡ ok h
  unfolding pair_of_items
  items_complete n v h a b =
      rw
        (
          bytes_or_complete n "send(): header names must be bytes" h.0 a,
          bytes_or_complete v "send(): header values must be bytes" h.1 b,
        )
        refl

  extract_header_pair_complete :
      (o : Obj) (h : Header) → IsPair o h → extract_header_pair py o ≡ ok h
  unfolding extract_header_pair
  extract_header_pair_complete o h (n, v, is, a, b) = ground (arith, items_complete n v h a b)

  parse_headers_sound :
      (items : List (Option Obj)) (out : List Header)
      → parse_headers py items ≡ ok out
      → (hs : List Header) × Accepts items hs × (out ≡ strip_framing hs)
  unfolding parse_headers
  parse_headers_sound [] out e = ([], tt, ground arith)
  parse_headers_sound (item ∷ items) out e =
      let (pair, got, e1) = >>=-eq-ok (ok_or item raised) _ e in
      let (h, extracted, e2) = >>=-eq-ok (extract_header_pair py pair) _ e1 in
      let (u, lower, e3) = >>=-eq-ok (guard (not (any is_upper h.0)) _) _ e2 in
      let (v, plain, e4) = >>=-eq-ok (guard (not (is_pseudo h.0)) _) _ e3 in
      let (rest, parsed, e5) = >>=-eq-ok (parse_headers py items) _ e4 in
      let (hs, accepted, same) = parse_headers_sound items rest parsed in
      (
        h ∷ hs,
        (
          (pair, ok_or-eq-ok item raised got, extract_header_pair_sound pair h extracted),
          (ground (arith, guard-eq-ok _ _ lower), ground (arith, guard-eq-ok _ _ plain)),
          accepted,
        ),
        ground arith,
      )

  parse_headers_complete :
      (items : List (Option Obj)) (hs : List Header)
      → Accepts items hs
      → parse_headers py items ≡ ok (strip_framing hs)
  unfolding parse_headers
  parse_headers_complete [] [] a = refl
  parse_headers_complete [] (h ∷ hs) a = absurd a
  parse_headers_complete (item ∷ items) [] a = absurd a
  parse_headers_complete (item ∷ items) (h ∷ hs) ((o, got, paired), (lower, plain), a) = rw (
    got,
    ok_or,
    extract_header_pair_complete o h paired,
    lower,
    plain,
    parse_headers_complete items hs a,
  )

  -- The header loop succeeds exactly when each item is a sequence of two items, each `bytes`, a
  -- `bytearray` or `None` for the empty string, with a lowercase name that is no pseudo-header; and
  -- then it gives all those pairs, in their order, but the ones named `transfer-encoding`.
  pub parse_headers_iff :
      (items : List (Option Obj)) (out : List Header)
      → (parse_headers py items ≡ ok out)
        ↔ ((hs : List Header) × Accepts items hs × (out ≡ strip_framing hs))
  parse_headers_iff items out =
      (parse_headers_sound items out, λ w. parse_headers_complete items w.0 w.1 ∙ ap ok (sym w.2))

-- What the server may send as a response header.
pub record IsResponseHeader (h : Header) : Type 0 where
  pub lowercase : any is_upper h.0 ≡ false
  pub regular : is_pseudo h.0 ≡ false
  pub unframed : h.0 ≢ transfer_encoding

module _ (py : PyApi) where
  open py use {Obj, get_item, extract_u16, extract_str}

  strip_framing-All :
      (items : List (Option Obj)) (hs : List Header)
      → Accepts py items hs
      → All IsResponseHeader (strip_framing hs)
  strip_framing-All [] [] a = tt
  strip_framing-All [] (h ∷ hs) a = absurd a
  strip_framing-All (item ∷ items) [] a = absurd a
  strip_framing-All (item ∷ items) (h ∷ hs) (_, (lower, plain), a) =
      let ih = strip_framing-All items hs a in
      elim (Bool-cases (bytes_eq h.0 transfer_encoding)) [
        | inl framing ↦ rw framing ih
        | inr other ↦ rw other (
          record {
            lowercase = lower;
            regular = plain;
            unframed = λ e. ground (arith, (bytes_eq_iff h.0 transfer_encoding).1 e, other);
          },
          ih,
        )
      ]

  headers_of-All :
      (raw : Option Obj) (out : List Header) → headers_of py raw ≡ ok out → All IsResponseHeader out
  unfolding headers_of
  headers_of-All none [] e = tt
  headers_of-All none (h ∷ hs) e = cc
  headers_of-All (some raw) out e =
      let (items, listed, e1) = >>=-eq-ok (ok_or (py.try_iter raw) _) _ e in
      let (hs, a, same) = parse_headers_sound py items out e1 in
      rw same (strip_framing-All items hs a)

  parse_start_sound :
      (m : Obj) (status : ℕ) (headers : List Header)
      → parse_start py m ≡ ok (start status headers)
      → (100 ≤ status) × (status ≤ 599) × All IsResponseHeader headers
  unfolding parse_start
  parse_start_sound m status headers e =
      (ground arith, ground arith, headers_of-All (get_item m "headers") headers (ground arith))

  -- A `http.response.start` that is accepted has a status of 100 to 599, and every header that
  -- goes to the client has a lowercase name, is no pseudo-header and is not `transfer-encoding`.
  pub parse_send_message_sound :
      (m : Obj) (status : ℕ) (headers : List Header)
      → parse_send_message py m ≡ ok (start status headers)
      → (100 ≤ status) × (status ≤ 599) × All IsResponseHeader headers
  unfolding parse_send_message
  parse_send_message_sound m status headers e = parse_start_sound m status headers (ground arith)
