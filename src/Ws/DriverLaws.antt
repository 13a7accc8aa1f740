-- ===== src/Ws/DriverLaws.antt =====
-- What the client and the application see of one WebSocket connection (src/ws.rs).
use rustasgi.Base.{
  ◌≡◌, refl, Bool, true, false, List, [], ◌∷◌, ◌++◌, none, some, inl, inr, Option-cases, arith,
}
use rustasgi.Response.{outcome, state_of, again_of_outcome}
use rustasgi.Ws.{WsEvent, Frame, WsInbound}
use rustasgi.Ws.Sequence.{
  is_legal, is_closed, is_session, is_running, is_legal-append, is_closed-append, is_running-data,
  is_session-running, is_session-disconnect,
}
use rustasgi.Ws.Driver.{
  Late, WsReady, Connection, First, event, timeout, feed, WsScript, opened, ws_turn, ws_pump,
  pump_and_stop, handshake, drive_websocket,
}

-- What every turn that goes on keeps.
record IsRunning (c : Connection) : Type 0 where
  legal : is_legal false c.frames ≡ true
  marked : is_closed false c.frames ≡ c.app_closed
  session : is_running c.inbox ≡ true

-- What every turn leaves.
pub record IsProper (c : Connection) : Type 0 where
  pub legal : is_legal false c.frames ≡ true
  pub session : is_session c.inbox ≡ true

ws_turn-IsRunning :
    (c : Connection) (r : WsReady)
    → outcome (ws_turn c r) ≡ none
    → IsRunning c
    → IsRunning (state_of (ws_turn c r))
unfolding ws_turn
ws_turn-IsRunning c r h i = grind (arith, is_legal-append, is_closed-append, is_running-data)

ws_turn-IsProper : (c : Connection) (r : WsReady) → IsRunning c → IsProper (state_of (ws_turn c r))
unfolding ws_turn
ws_turn-IsProper c r i = grind (
  arith, is_legal-append, is_closed-append, is_running-data, is_session-running,
  is_session-disconnect,
)

pub ws_pump-again :
    (c : Connection) (r : WsReady) (rs : List WsReady)
    → outcome (ws_turn c r) ≡ none
    → ws_pump c (r ∷ rs) ≡ ws_pump (state_of (ws_turn c r)) rs
unfolding ws_pump
ws_pump-again c r rs h = rw (again_of_outcome (ws_turn c r) h, ws_pump)

pub ws_pump-done :
    (c : Connection) (r : WsReady) (rs : List WsReady) {u : Unit {0}}
    → outcome (ws_turn c r) ≡ some u
    → ws_pump c (r ∷ rs) ≡ ws_turn c r
unfolding ws_pump
ws_pump-done c r rs h = ground arith

ws_pump-IsProper :
    (c : Connection) (rs : List WsReady) → IsRunning c → IsProper (state_of (ws_pump c rs))
ws_pump-IsProper c [] i =
    unfold ws_pump in record { legal = i.legal; session = is_session-running c.inbox i.session }
ws_pump-IsProper c (r ∷ rs) i = elim (Option-cases (outcome (ws_turn c r))) [
  | inl more ↦
      rw (ws_pump-again c r rs more)
        (ws_pump-IsProper (state_of (ws_turn c r)) rs (ws_turn-IsRunning c r more i))
  | inr (u, over) ↦ rw (ws_pump-done c r rs over) (ws_turn-IsProper c r i)
]

pump_and_stop-IsProper :
    (c : Connection) (rs : List WsReady) (late : Late)
    → IsRunning c
    → IsProper (state_of (pump_and_stop c rs late))
unfolding pump_and_stop
pump_and_stop-IsProper c rs late i = ground (arith, ws_pump-IsProper c rs i)

handshake-IsProper :
    (c : Connection) (f : First) (rs : List WsReady) (late : Late)
    → IsRunning c
    → c.app_closed ≡ false
    → IsProper (state_of (handshake c f rs late))
unfolding handshake
handshake-IsProper c (event (some WsEvent.accept)) rs late i o = pump_and_stop-IsProper c rs late i
handshake-IsProper c (event (some (WsEvent.close n r))) rs late i o =
    grind (arith, is_legal-append, is_session-running)
handshake-IsProper c (event (some (WsEvent.send_text t))) rs late i o =
    grind (arith, is_legal-append, is_session-running)
handshake-IsProper c (event (some (WsEvent.send_bytes b))) rs late i o =
    grind (arith, is_legal-append, is_session-running)
handshake-IsProper c (event none) rs late i o = grind (arith, is_legal-append, is_session-running)
handshake-IsProper c timeout rs late i o = grind (arith, is_legal-append, is_session-running)

-- At every moment of a connection whose application was submitted and got its connect message,
-- whatever client and application do: no text, binary or second close frame follows the close
-- frame, and the application sees connect first, then data messages, and at most one disconnect,
-- which is the last message.
pub drive_websocket-IsProper :
    (s : WsScript)
    → s.setup_ok ≡ true
    → s.connect_ok ≡ true
    → IsProper (state_of (drive_websocket s))
unfolding drive_websocket
drive_websocket-IsProper s a b =
    rw (a, b)
      (handshake-IsProper (feed opened true WsInbound.connect) s.first s.turns s.late
        (record { legal = refl; marked = refl; session = refl }) refl)

-- The application has not accepted: its first event is another, or none comes in time.
abbrev is_accept : First → Bool
is_accept (event (some WsEvent.accept)) = true
is_accept _ = false

-- A close frame and nothing else.
abbrev is_refusal : List Frame → Bool
is_refusal (Frame.close _ _ ∷ []) = true
is_refusal _ = false

handshake-refused :
    (f : First) (rs : List WsReady) (late : Late)
    → is_accept f ≡ false
    → let t = handshake (feed opened true WsInbound.connect) f rs late in
      (outcome t ≡ some tt) × (is_refusal (state_of t).frames ≡ true)
unfolding handshake opened
handshake-refused (event (some WsEvent.accept)) rs late h = cc
handshake-refused (event (some (WsEvent.close n r))) rs late h = (refl, refl)
handshake-refused (event (some (WsEvent.send_text t))) rs late h = (refl, refl)
handshake-refused (event (some (WsEvent.send_bytes b))) rs late h = (refl, refl)
handshake-refused (event none) rs late h = (refl, refl)
handshake-refused timeout rs late h = (refl, refl)

-- Unless the application accepts first, the client gets one close frame and nothing else, whatever
-- either side would send afterwards, and the driver ends.
drive_websocket-refused :
    (s : WsScript)
    → is_accept s.first ≡ false
    → (outcome (drive_websocket s) ≡ some tt)
      × (is_refusal (state_of (drive_websocket s)).frames ≡ true)
unfolding drive_websocket
drive_websocket-refused s h = (
  ground (arith, handshake-refused s.first s.turns s.late h),
  ground (arith, handshake-refused s.first s.turns s.late h),
)

-- If the application has returned, the pump ends with close code 1000 and sends nothing else,
-- although an event of the application is still in the channel: the message, or the close code
-- that the application chose, is lost.
pub ws_pump-drops_event :
    (c : Connection) (r : WsReady) (rs : List WsReady) (e : WsEvent) (raised : Bool)
    → c.app_done ≡ false
    → c.app_closed ≡ false
    → r.app ≡ some raised
    → r.recv ≡ some (some e)
    → (outcome (ws_pump c (r ∷ rs)) ≡ some tt)
      × ((state_of (ws_pump c (r ∷ rs))).frames ≡ c.frames ++ Frame.close 1000 [] ∷ [])
unfolding ws_pump ws_turn
ws_pump-drops_event c r rs e raised d o a q = (ground arith, ground arith)
