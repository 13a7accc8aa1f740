-- ===== src/Sink/Push.antt =====
-- src/asgi.rs, `SendSink::_push`, and src/ws.rs, `WsSink::_push`, with the moves of the two ends of
-- their channel.
use rustasgi.Base.{
  ℕ, Bool, true, false, List, [], ◌∷◌, Option, none, some, if◌then◌else◌, Result, ok, err,
}
use rustasgi.Python.{PyErr, os_error, raised, PyApi}
use rustasgi.Message.{ResponseEvent, parse_send_message}
use rustasgi.Metrics.{Metrics, inc, c_send_fast, c_send_full}
use rustasgi.Ws.{WsEvent}
use rustasgi.Ws.Parse.{parse_ws_message}
use rustasgi.Sink.{
  Sent, sent, full, closed, Mpsc, Sink, Reply, accepted, parked, refused, resumed, still_waiting,
  received, done,
}

-- Bounds of the channels, `RESPONSE_CHANNEL_BOUND` and `WS_CHANNEL_BOUND`.
abbrev pub response_channel_bound : ℕ
response_channel_bound = 16

abbrev pub ws_channel_bound : ℕ
ws_channel_bound = 16

-- What tells the two sinks apart: their errors, and the counters that they increment.
pub record Kind (E : Type 0) : Type 0 where
  pub after_disconnect : PyErr
  pub connection_closed : PyErr
  pub counts : Sent E → Metrics → Metrics

module _ {E : Type 0} {bound : ℕ} (M : Mpsc E bound) (kind : Kind E) where
  -- The `match self.tx.try_send(event)`; `spawns` says whether `future_into_py_with_locals`
  -- gives an awaitable.
  unfoldable pub offered : Bool → Sink M → E → Sent E → Sink M × Reply E
  offered spawns s e sent = (s, accepted e)
  offered true s e (full e') = (record s { waiting = some e' }, parked e')
  offered false s e (full e') = (s, refused raised)
  offered spawns s e closed = (s, refused kind.connection_closed)

  unfoldable pub offer : Bool → Sink M → E → Sink M × Reply E
  unfolding offered
  offer spawns s e =
      let (c, outcome) = M.try_send s.channel e in
      offered spawns (record s { channel = c; metrics = kind.counts outcome s.metrics }) e outcome

  -- `_push`, from the result that the validation of the message has.
  unfoldable pub push : Bool → Sink M → Result PyErr E → Sink M × Reply E
  unfolding offer
  push spawns s (err e) =
      if s.disconnected then (s, refused kind.after_disconnect) else (s, refused e)
  push spawns s (ok e) =
      if s.disconnected then (s, refused kind.after_disconnect) else offer spawns s e

  -- A poll of the awaitable's future, `tx.send(event).await`.
  unfoldable pub polled : Sink M → Sent E → Sink M × Reply E
  polled s sent = (record s { waiting = none }, resumed)
  polled s (full e') = (record s { waiting = some e' }, still_waiting)
  polled s closed = (record s { waiting = none }, refused kind.connection_closed)

  unfoldable pub resume : Sink M → E → Sink M × Reply E
  unfolding polled
  resume s e =
      let (c, outcome) = M.poll_send s.channel e in polled (record s { channel = c }) outcome

abbrev pub http : Kind ResponseEvent
http = record {
  after_disconnect = os_error "ASGI send(): connection closed (send after disconnect)";
  connection_closed = os_error "ASGI send(): connection closed";
  counts = λ outcome m. elim outcome [
    | sent ↦ inc c_send_fast m
    | full _ ↦ inc c_send_full m
    | closed ↦ m
  ];
}

abbrev pub websocket : Kind WsEvent
websocket = record {
  after_disconnect = os_error "ASGI send(): websocket closed (send after disconnect)";
  connection_closed = os_error "ASGI send(): websocket closed";
  counts = λ outcome m. m;
}

-- The moves of the application (`send` with what the validation of its message gives, and the loop's
-- poll of an awaited send), of the receiving task, and of what ends the connection.
pub data Move (E : Type 0) : Type 0 where
  send : (spawns : Bool) (parsed : Result PyErr E) → Move E
  poll : Move E
  recv : Move E
  disconnect : Move E
  drop_receiver : Move E

module _ {E : Type 0} {bound : ℕ} (M : Mpsc E bound) (kind : Kind E) where
  -- `none` is a move that cannot be made: an application awaits each send before its next
  -- (`_Sender.__call__`), and a dropped receiver receives nothing.
  unfoldable pub act : Sink M → Move E → Option (Sink M × Reply E)
  unfolding push resume
  act s (send spawns parsed) = elim s.waiting [
    | some _ ↦ none
    | none ↦ some (push M kind spawns s parsed)
  ]
  act s poll = elim s.waiting [ some e ↦ some (resume M kind s e) | none ↦ none ]
  act s recv =
      let (c, e) = M.recv s.channel in
      if M.is_open s.channel then some (record s { channel = c }, received e) else none
  act s disconnect = some (record s { disconnected = true }, done)
  act s drop_receiver = some (record s { channel = M.close s.channel }, done)

  -- The rest of a run behind a move.
  abbrev pub put_reply :
      Reply E → Option (Sink M × List (Reply E)) → Option (Sink M × List (Reply E))
  put_reply r none = none
  put_reply r (some (s, rs)) = some (s, r ∷ rs)

  abbrev pub and_then :
      Option (Sink M × Reply E)
      → (Sink M → Option (Sink M × List (Reply E)))
      → Option (Sink M × List (Reply E))
  and_then none next = none
  and_then (some (s, r)) next = put_reply r (next s)

  unfoldable pub run : Sink M → List (Move E) → Option (Sink M × List (Reply E))
  run s [] = some (s, [])
  run s (m ∷ ms) = and_then (act s m) (λ s1. run s1 ms)

-- `SendSink::new` and `WsSink::new` on a fresh channel.
abbrev pub fresh : {E : Type 0} {bound : ℕ} (M : Mpsc E bound) → Metrics → Sink M
fresh M m = record { channel = M.new; disconnected = false; waiting = none; metrics = m }

-- `SendSink::_push` and `WsSink::_push` of a Python message.
module _ (py : PyApi) where
  unfoldable pub send_sink_push :
      (M : Mpsc ResponseEvent response_channel_bound)
      → Bool
      → Sink M
      → py.Obj
      → Sink M × Reply ResponseEvent
  unfolding push
  send_sink_push M spawns s message = push M http spawns s (parse_send_message py message)

  unfoldable pub ws_sink_push :
      (M : Mpsc WsEvent ws_channel_bound) → Bool → Sink M → py.Obj → Sink M × Reply WsEvent
  unfolding push
  ws_sink_push M spawns s message = push M websocket spawns s (parse_ws_message py message)
