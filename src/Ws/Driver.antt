-- ===== src/Ws/Driver.antt =====
-- src/ws.rs: `drive_websocket`, the ASGI handshake and the bidirectional pump of one connection.
use rustasgi.Base.{
  ◌||◌, ℕ, Bool, true, false, List, [], ◌∷◌, ◌++◌, Option, none, some, if◌then◌else◌,
}
use rustasgi.Base.Text.{codes}
use rustasgi.Ws.{WsEvent, Frame, WsInbound, ClientMessage}
use rustasgi.Response.{Turn, again, done}

-- What the branches of one turn of the select find when polled, `none` being pending, and whether
-- the sends and queue puts that the turn makes succeed.
pub record WsReady : Type 0 where
  pub app : Option Bool
  pub recv : Option (Option WsEvent)
  pub next : Option ClientMessage
  pub send_ok : Bool
  pub feed_ok : Bool

-- What the driver says of the application's end: its exception is printed, or it has not ended in time.
pub data Note : Type 0 where
  traceback unfinished : Note

pub record Connection : Type 0 where
  -- `app_done.is_some()`.
  pub app_done : Bool
  pub app_closed : Bool
  -- `disconnected`: a later `send()` of the application raises `OSError`.
  pub disconnected : Bool
  -- The frames handed to the transport and the messages put into the queue, oldest first.
  pub frames : List Frame
  pub inbox : List WsInbound
  pub notes : List Note

-- `finish_ws_take`: what awaiting the application's future for 15 seconds gives, `none` being a
-- timeout; and what a future that completes in the pump leaves.
abbrev pub noted : Option Bool → List Note
noted (some raised) = if raised then traceback ∷ [] else []
noted none = unfinished ∷ []

abbrev pub finish_ws : Option Bool → Connection → Connection
finish_ws late c = record c { notes = c.notes ++ noted late }

abbrev pub WsTurn : Type 0
WsTurn = Turn Connection (Unit {0})

abbrev pub send : Connection → Frame → Connection
send c f = record c { frames = c.frames ++ f ∷ [] }

-- `send_close`, which ignores a failure.
abbrev pub send_close : Connection → ℕ → List ℕ → Connection
send_close c code reason = send c (Frame.close code reason)

-- `if !app_closed { send_close(..) }`.
abbrev pub close_unless_closed : Connection → ℕ → Connection
close_unless_closed c code = if c.app_closed then c else send_close c code []

-- `feed_ws`: the message stands in the queue if the put succeeds in time.
abbrev pub feed : Connection → Bool → WsInbound → Connection
feed c feed_ok m = if feed_ok then record c { inbox = c.inbox ++ m ∷ [] } else c

abbrev again_if : Bool → Connection → WsTurn
again_if b c = if b then again c else done c tt

on_app : Connection → Bool → WsTurn
on_app c raised =
    done (close_unless_closed (finish_ws (some raised) (record c { app_done = true })) 1000) tt

on_event : Connection → Option WsEvent → Bool → WsTurn
on_event c (some (WsEvent.send_text s)) send_ok = again_if send_ok (send c (Frame.text s))
on_event c (some (WsEvent.send_bytes b)) send_ok = again_if send_ok (send c (Frame.binary b))
on_event c (some (WsEvent.close code reason)) send_ok =
    again (record (send_close c code reason) { app_closed = true })
on_event c (some WsEvent.accept) send_ok = again c
on_event c none send_ok = done (close_unless_closed c 1000) tt

-- `frame.map(|f| (code, reason)).unwrap_or((1006, String::new()))`.
abbrev pub close_of : Option (ℕ × List ℕ) → ℕ × List ℕ
close_of (some f) = f
close_of none = (1006, [])

on_next : Connection → ClientMessage → Bool → Bool → WsTurn
on_next c (ClientMessage.text s) send_ok feed_ok =
    again_if feed_ok (feed c feed_ok (WsInbound.text s))
on_next c (ClientMessage.binary b) send_ok feed_ok =
    again_if feed_ok (feed c feed_ok (WsInbound.bytes b))
on_next c (ClientMessage.ping p) send_ok feed_ok = again_if send_ok (send c (Frame.pong p))
on_next c (ClientMessage.pong p) send_ok feed_ok = again c
on_next c (ClientMessage.close f) send_ok feed_ok =
    let (code, reason) = close_of f in
    done (feed (close_unless_closed c code) feed_ok (WsInbound.disconnect code reason)) tt
on_next c ClientMessage.frame send_ok feed_ok = again c
on_next c ClientMessage.gone send_ok feed_ok =
    done (feed c feed_ok (WsInbound.disconnect 1006 [])) tt

next_branch : Connection → Option ClientMessage → WsReady → WsTurn
next_branch c (some m) r = on_next c m r.send_ok r.feed_ok
next_branch c none r = again c

recv_branch : Connection → Option (Option WsEvent) → WsReady → WsTurn
recv_branch c (some e) r = if c.app_closed then next_branch c r.next r else on_event c e r.send_ok
recv_branch c none r = next_branch c r.next r

app_branch : Connection → Option Bool → WsReady → WsTurn
app_branch c (some raised) r = if c.app_done then recv_branch c r.recv r else on_app c raised
app_branch c none r = recv_branch c r.recv r

-- One turn of the biased select: the application's end, then its events, then the client.
unfoldable pub ws_turn : Connection → WsReady → WsTurn
unfolding app_branch recv_branch next_branch on_app on_event on_next
ws_turn c r = app_branch c r.app r

unfoldable pub ws_pump : Connection → List WsReady → WsTurn
ws_pump c [] = again c
ws_pump c (r ∷ rs) = elim (ws_turn c r) [ again c' ↦ ws_pump c' rs | done c' u ↦ done c' u ]

-- The first thing that the application sends, within 30 seconds.
pub data First : Type 0 where
  event : Option WsEvent → First
  timeout : First

-- What the wait for the application gives. Behind the pump, a second bound of 15 seconds around that
-- of `finish_ws_take` may pass first, and then nothing is said.
pub record Late : Type 0 where
  pub ending : Option Bool
  pub cut : Bool

-- What the outside world does to a connection.
pub record WsScript : Type 0 where
  pub setup_ok : Bool
  pub connect_ok : Bool
  pub first : First
  pub turns : List WsReady
  -- The application's future behind the driver's own end.
  pub late : Late

unfoldable pub opened : Connection
opened = record {
  app_done = false;
  app_closed = false;
  disconnected = false;
  frames = [];
  inbox = [];
  notes = [];
}

-- `if app_done.is_none()`: the driver ended first, and gives the application some time.
abbrev pub stop : Late → Connection → Connection
stop late c =
    let d = record c { disconnected = true } in
    if c.app_done || late.cut then d else finish_ws late.ending d

-- The pump, and the end of the channel and of the application behind it.
unfoldable pub pump_and_stop : Connection → List WsReady → Late → WsTurn
pump_and_stop c rs late = elim (ws_pump c rs) [
  | again c' ↦ again c'
  | done c' u ↦ done (stop late c') u
]

-- `send_close` and `finish_ws`.
abbrev pub refuse : Connection → ℕ → List ℕ → Late → WsTurn
refuse c code reason late = done (finish_ws late.ending (send_close c code reason)) tt

-- An application whose channel is gone is not awaited.
unfoldable pub handshake : Connection → First → List WsReady → Late → WsTurn
handshake c (event (some WsEvent.accept)) rs late = pump_and_stop c rs late
handshake c (event (some (WsEvent.close code reason))) rs late = refuse c code reason late
handshake c (event (some _)) rs late = refuse c 1011 (codes "expected accept") late
handshake c (event none) rs late = done (send_close c 1011 (codes "app failed")) tt
handshake c timeout rs late = refuse c 1011 (codes "accept timeout") late

unfoldable pub drive_websocket : WsScript → WsTurn
unfolding handshake pump_and_stop opened
drive_websocket s =
    if s.setup_ok
    then (if s.connect_ok
        then handshake (feed opened true WsInbound.connect) s.first s.turns s.late
        else done (send_close opened 1011 (codes "setup failed")) tt)
    else done (send_close opened 1011 (codes "internal error")) tt
