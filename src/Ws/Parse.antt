-- ===== src/Ws/Parse.antt =====
-- src/ws.rs: `parse_ws_message` and `ws_bytes`.
use rustasgi.Base.{ℕ, List, Option, none, some, if◌then◌else◌, Result, ok, err, ◌>>=◌, ok_or}
use rustasgi.Base.Text.{codes}
use rustasgi.Python.{PyErr, value_error, unsupported_type, PyApi}
use rustasgi.Message.{get_or}
use rustasgi.Ws.{WsEvent}
use Prim.Native.String.{String}
use text.Mathlib.Text.{◌==◌ as str_eq}

module _ (py : PyApi) where
  open py use {Obj, get_item, extract_str, extract_u16, as_py_bytes, as_py_bytearray}

  unfoldable pub ws_bytes : Obj → Result PyErr (List ℕ)
  ws_bytes obj = elim (as_py_bytes obj) [
    | some b ↦ ok b
    | none ↦ elim (as_py_bytearray obj) [
      | some b ↦ ok b
      | none ↦ err (value_error "expected bytes")
    ]
  ]

  bytes_event : Result PyErr (List ℕ) → Result PyErr WsEvent
  bytes_event (ok b) = ok (WsEvent.send_bytes b)
  bytes_event (err _) = err (value_error "send(): 'bytes' must be bytes")

  text_event : Option String → Result PyErr WsEvent
  text_event (some s) = ok (WsEvent.send_text (codes s))
  text_event none = err (value_error "send(): 'text' must be str")

  -- The `match (text, bytes)`.
  unfoldable pub parse_send : Option Obj → Option Obj → Result PyErr WsEvent
  unfolding bytes_event text_event ws_bytes
  parse_send (some t) none = text_event (extract_str t)
  parse_send none (some b) = bytes_event (ws_bytes b)
  parse_send (some _) (some _) =
      err (value_error "send(): 'text' and 'bytes' are mutually exclusive")
  parse_send none none = err (value_error "send(): websocket.send needs 'text' or 'bytes'")

  -- `message.get_item(k).ok().and_then(|v| v.extract().ok())`.
  abbrev pub extract_opt {ℓ} : {A : Type ℓ} → (Obj → Option A) → Option Obj → Option A
  extract_opt f none = none
  extract_opt f (some v) = f v

  unfoldable pub parse_close : Obj → WsEvent
  parse_close message =
      WsEvent.close (get_or (extract_opt extract_u16 (get_item message "code")) 1000)
        (codes (get_or (extract_opt extract_str (get_item message "reason")) ""))

  unfoldable pub parse_ws_message : Obj → Result PyErr WsEvent
  unfolding parse_send parse_close
  parse_ws_message message = do
    type_obj ← ok_or (get_item message "type") (value_error "send(): message missing 'type'")
    msg_type ← ok_or (extract_str type_obj) (value_error "send(): message 'type' must be str")
    if str_eq msg_type "websocket.accept"
        then ok WsEvent.accept
        else if str_eq msg_type "websocket.send"
        then parse_send (get_item message "text") (get_item message "bytes")
        else if str_eq msg_type "websocket.close"
        then ok (parse_close message)
        else err (unsupported_type msg_type)
