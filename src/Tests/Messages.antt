-- ===== src/Tests/Messages.antt =====
-- Messages that an application sends, through src/asgi.rs.
use rustasgi.Base.{ℕ, ◌≤◌, ◌≡◌, ◌↔◌, refl, List, [], ◌∷◌, Option, some, All, ok}
use rustasgi.Base.Text.{codes, bytes_eq}
use rustasgi.Message.{Header, extract_header_pair, parse_headers, parse_send_message}
use rustasgi.Message.Laws.{
  Accepts, strip_framing, parse_headers_iff, IsResponseHeader, parse_send_message_sound,
}
use rustasgi.Tests.Values.{
  Value, string, number, byte_string, items, no_items, item, dict, field, no_fields, toy,
}

abbrev pair : List ℕ → List ℕ → Value
pair n v = items (item (byte_string n) (item (byte_string v) no_items))

abbrev framed : List (Option Value)
framed =
    some (pair (codes "x") (codes "1"))
    ∷ some (pair (codes "transfer-encoding") (codes "chunked"))
    ∷ []

abbrev kept : List Header
kept = (codes "x", codes "1") ∷ []

parse_headers_iff_example :
    (parse_headers toy framed ≡ ok kept)
    ↔ ((hs : List Header) × Accepts toy framed hs × (kept ≡ strip_framing hs))
parse_headers_iff_example = parse_headers_iff toy framed kept

abbrev answer : Value
answer = dict (
    field "type" (string "http.response.start") (
      field "status" (number 200)
        (field "headers" (items (item (pair (codes "x") (codes "1")) no_items)) no_fields)))

parse_send_message_sound_example : (100 ≤ 200) × (200 ≤ 599) × All IsResponseHeader kept
unfolding parse_send_message extract_header_pair bytes_eq
parse_send_message_sound_example = parse_send_message_sound toy answer 200 kept refl
