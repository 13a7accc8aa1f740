-- ===== src/Ws/ParseLaws.antt =====
-- What `parse_ws_message` accepts (src/ws.rs).
use rustasgi.Base.{
  ℕ, ◌≡◌, refl, true, List, Option, none, some, ok, err, arith, ◌↔◌, Option-cases, inl, inr, ok_or,
  >>=-eq-ok, ok_or-eq-ok, ap, ◌∙◌, if◌then◌else◌,
}
use rustasgi.Base.Text.{codes}
use rustasgi.Python.{unsupported_type, PyApi}
use rustasgi.Ws.{WsEvent}
use rustasgi.Ws.Parse.{parse_send, parse_close, parse_ws_message}
use Prim.Native.String.{String}
use text.Mathlib.Text.{◌==◌ as str_eq}
use text.Mathlib.TextEquality.{eq_iff}

module _ (py : PyApi) where
  open py use {Obj, get_item, extract_str, extract_u16, extract_u16_bounded}

  -- A `websocket.send` with the one key `text`, a str of these code points.
  pub record IsText (m : Obj) (s : List ℕ) : Type 0 where
    pub kind : Obj
    pub value : Obj
    pub str : String
    pub has_type : get_item m "type" ≡ some kind
    pub is_send : extract_str kind ≡ some "websocket.send"
    pub has_text : get_item m "text" ≡ some value
    pub no_bytes : get_item m "bytes" ≡ none
    pub is_str : extract_str value ≡ some str
    pub same : s ≡ codes str

  parse_send-text :
      (t b : Option Obj) (s : List ℕ)
      → parse_send py t b ≡ ok (WsEvent.send_text s)
      → (v : Obj) × (str : String) × (t ≡ some v)
        × (b ≡ none)
        × (extract_str v ≡ some str)
        × (s ≡ codes str)
  unfolding parse_send
  parse_send-text (some v) none s h = elim (Option-cases (extract_str v)) [
    | inl absent ↦ absurd (cc (h, absent))
    | inr (str, present) ↦ (v, str, refl, refl, present, ground arith)
  ]
  parse_send-text none (some v) s h = ground arith
  parse_send-text (some v) (some w) s h = cc
  parse_send-text none none s h = cc

  parsed_send :
      (m : Obj) (kind : String) (s : List ℕ)
      → (if str_eq kind "websocket.accept"
          then ok WsEvent.accept
          else if str_eq kind "websocket.send"
          then parse_send py (get_item m "text") (get_item m "bytes")
          else if str_eq kind "websocket.close"
          then ok (parse_close py m)
          else err (unsupported_type kind))
        ≡ ok (WsEvent.send_text s)
      → (str_eq kind "websocket.send" ≡ true)
        × (parse_send py (get_item m "text") (get_item m "bytes") ≡ ok (WsEvent.send_text s))
  unfolding parse_close
  parsed_send m kind s h = (ground arith, ground arith)

  parse_ws_message_sound :
      (m : Obj) (s : List ℕ) → parse_ws_message py m ≡ ok (WsEvent.send_text s) → IsText m s
  unfolding parse_ws_message
  parse_ws_message_sound m s h =
      let (k, e1, h1) = >>=-eq-ok (ok_or (get_item m "type") _) _ h in
      let (kind, e2, h2) = >>=-eq-ok (ok_or (extract_str k) _) _ h1 in
      let (is, sent) = parsed_send m kind s h2 in
      let (v, str, has, none', got, same) =
        parse_send-text (get_item m "text") (get_item m "bytes") s sent in
      record {
        kind = k;
        value = v;
        str = str;
        has_type = ok_or-eq-ok (get_item m "type") _ e1;
        is_send = ok_or-eq-ok (extract_str k) _ e2 ∙ ap some ((eq_iff kind "websocket.send").0 is);
        has_text = has;
        no_bytes = none';
        is_str = got;
        same = same;
      }

  -- `parse_ws_message` gives a text message exactly for a `websocket.send` that has a str `text` and
  -- no `bytes`, and it is that text.
  pub parse_ws_message-IsText :
      (m : Obj) (s : List ℕ) → (parse_ws_message py m ≡ ok (WsEvent.send_text s)) ↔ IsText m s
  unfolding parse_ws_message
  parse_ws_message-IsText m s = (
    parse_ws_message_sound m s,
    λ t. rw (t.has_type, ok_or, t.is_send, t.has_text, t.no_bytes, parse_send, t.is_str, t.same),
  )
