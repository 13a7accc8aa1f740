-- ===== src/Message.antt =====
-- src/asgi.rs: `ResponseEvent`, and the validation of a `send()` message of the ASGI HTTP protocol.
pub mod Laws
use rustasgi.Base.{
  ℕ, Bool, true, false, not, ◌&&◌, List, [], ◌∷◌, Option, none, some, any, leb, ◌==◌, length,
  if◌then◌else◌, Result, ok, err, ◌>>=◌, ◌>>◌, guard, ok_or,
}
use rustasgi.Base.Text.{bytes_eq, is_upper, codes}
use rustasgi.Python.{PyErr, value_error, invalid_status, unsupported_type, raised, PyApi}
use Prim.Native.String.{String}
use text.Mathlib.Text.{◌==◌ as str_eq}

abbrev pub Header : Type 0
Header = List ℕ × List ℕ

pub data ResponseEvent : Type 0 where
  start : (status : ℕ) (headers : List Header) → ResponseEvent
  body : (content : List ℕ) (more_body : Bool) → ResponseEvent

-- `name.first() == Some(&b':')`.
abbrev pub is_pseudo : List ℕ → Bool
is_pseudo [] = false
is_pseudo (c ∷ _) = c == b':'

abbrev pub transfer_encoding : List ℕ
transfer_encoding = codes "transfer-encoding"

abbrev pub get_or {ℓ} : {A : Type ℓ} → Option A → A → A
get_or (some a) d = a
get_or none d = d

module _ (py : PyApi) where
  open py use {
    Obj, get_item, extract_str, extract_u16, extract_bool, try_iter, as_sequence, as_py_bytes,
    as_py_bytearray, is_none,
  }

  -- `bytes` and `bytearray` give their bytes, `None` the empty string.
  unfoldable pub as_bytes : Obj → Result PyErr (List ℕ)
  as_bytes obj = elim (as_py_bytes obj) [
    | some b ↦ ok b
    | none ↦ elim (as_py_bytearray obj) [
      | some b ↦ ok b
      | none ↦ if is_none obj then ok [] else err (value_error "expected bytes")
    ]
  ]

  -- `as_bytes(..).map_err(|_| ..)`.
  unfoldable pub bytes_or : Obj → String → Result PyErr (List ℕ)
  unfolding as_bytes
  bytes_or obj message = elim (as_bytes obj) [ ok b ↦ ok b | err _ ↦ err (value_error message) ]

  -- `seq.get_item(i)?`.
  abbrev item_or_raise : Option Obj → Result PyErr Obj
  item_or_raise o = ok_or o raised

  pub pair_of_items : List (Option Obj) → Result PyErr Header
  pair_of_items (n ∷ v ∷ []) = do
    name_obj ← item_or_raise n
    name ← bytes_or name_obj "send(): header names must be bytes"
    value_obj ← item_or_raise v
    value ← bytes_or value_obj "send(): header values must be bytes"
    ok (name, value)
  pair_of_items _ = err (value_error "send(): headers must be 2-item (name, value) sequences")

  unfoldable pub extract_header_pair : Obj → Result PyErr Header
  unfolding pair_of_items bytes_or
  extract_header_pair pair = elim (as_sequence pair) [
    | some items ↦ pair_of_items items
    | none ↦ err (value_error "send(): headers must be 2-item (name, value) sequences")
  ]

  -- The loop over `raw.try_iter()`.
  pub parse_headers : List (Option Obj) → Result PyErr (List Header)
  parse_headers [] = ok []
  parse_headers (item ∷ items) = do
    pair ← ok_or item raised
    header ← extract_header_pair pair
    guard (not (any is_upper header.0))
        (value_error "send(): response header names must be lowercase")
    guard (not (is_pseudo header.0)) (value_error "send(): pseudo-headers are not allowed")
    rest ← parse_headers items
    ok (if bytes_eq header.0 transfer_encoding then rest else header ∷ rest)

  headers_of : Option Obj → Result PyErr (List Header)
  headers_of none = ok []
  headers_of (some raw) = do
    items ← ok_or (try_iter raw) (value_error "send(): 'headers' must be iterable")
    parse_headers items

  -- `message.get_item("trailers")`, wanted only if it is the `bool` true.
  wants_trailers : Option Obj → Bool
  wants_trailers none = false
  wants_trailers (some t) = get_or (extract_bool t) false

  unfoldable pub parse_start : Obj → Result PyErr ResponseEvent
  unfolding headers_of wants_trailers parse_headers
  parse_start message = do
    status_obj ←
        ok_or (get_item message "status")
          (value_error "send(): http.response.start missing 'status'")
    status ← ok_or (extract_u16 status_obj) (value_error "send(): 'status' must be an integer")
    guard (leb 100 status && leb status 599) (invalid_status status)
    guard (not (wants_trailers (get_item message "trailers")))
        (value_error "send(): HTTP trailers are not supported by this server")
    headers ← headers_of (get_item message "headers")
    ok (start status headers)

  content_of : Option Obj → Result PyErr (List ℕ)
  content_of none = ok []
  content_of (some b) = bytes_or b "send(): 'body' must be bytes"

  flag_of : Option Obj → Bool
  flag_of none = false
  flag_of (some v) = get_or (extract_bool v) false

  unfoldable pub parse_body : Obj → Result PyErr ResponseEvent
  unfolding content_of flag_of bytes_or
  parse_body message = do
    content ← content_of (get_item message "body")
    ok (body content (flag_of (get_item message "more_body")))

  unfoldable pub parse_send_message : Obj → Result PyErr ResponseEvent
  unfolding parse_start parse_body
  parse_send_message message = do
    type_obj ← ok_or (get_item message "type") (value_error "send(): message missing 'type'")
    msg_type ← ok_or (extract_str type_obj) (value_error "send(): message 'type' must be str")
    if str_eq msg_type "http.response.start"
        then parse_start message
        else if str_eq msg_type "http.response.body"
        then parse_body message
        else if str_eq msg_type "http.response.trailers"
        then err (value_error "send(): HTTP trailers are not supported by this server")
        else err (unsupported_type msg_type)
