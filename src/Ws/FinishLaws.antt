-- ===== src/Ws/FinishLaws.antt =====
-- What is said of the end of a connection's application (src/ws.rs, `drive_websocket` and
-- `finish_ws_take`).
use rustasgi.Base.{
  if◌then◌else◌, ◌≡◌, ◌⊎◌, refl, Bool, true, false, List, [], ◌∷◌, Option, none, some, inl, inr,
  Option-cases, arith,
}
use rustasgi.Response.{outcome, state_of}
use rustasgi.Ws.{WsEvent, WsInbound}
use rustasgi.Ws.Driver.{
  Note, noted, Late, WsReady, Connection, First, event, timeout, feed, WsScript, opened, ws_turn,
  ws_pump, pump_and_stop, handshake, drive_websocket,
}
use rustasgi.Ws.DriverLaws.{ws_pump-again, ws_pump-done}

-- The application's end in the first turn of the pump that finds it.
abbrev pub first_end : List WsReady → Option Bool
first_end [] = none
first_end (r ∷ rs) = elim r.app [ some raised ↦ some raised | none ↦ first_end rs ]

first_end-pending :
    (r : WsReady) (rs : List WsReady) → r.app ≡ none → first_end (r ∷ rs) ≡ first_end rs
first_end-pending r rs h = ground arith

first_end-ended :
    (r : WsReady) (rs : List WsReady) (raised : Bool)
    → r.app ≡ some raised
    → first_end (r ∷ rs) ≡ some raised
first_end-ended r rs raised h = ground arith

-- Nothing is said before the application's end is seen.
abbrev IsSilent : Connection → Type 0
IsSilent c = (c.app_done ≡ false) × (c.notes ≡ [])

-- The pump has seen the application's end, and said so.
abbrev HasSeen : Option Bool → Connection → Type 0
HasSeen o c = (raised : Bool) × (o ≡ some raised) × (c.app_done ≡ true) × (c.notes ≡ noted o)

ws_turn-ended :
    (c : Connection) (r : WsReady) (raised : Bool)
    → r.app ≡ some raised
    → IsSilent c
    → (outcome (ws_turn c r) ≡ some tt)
      × ((state_of (ws_turn c r)).app_done ≡ true)
      × ((state_of (ws_turn c r)).notes ≡ noted (some raised))
unfolding ws_turn
ws_turn-ended c r raised h i = (ground arith, ground arith, ground arith)

ws_turn-IsSilent :
    (c : Connection) (r : WsReady) → r.app ≡ none → IsSilent c → IsSilent (state_of (ws_turn c r))
unfolding ws_turn
ws_turn-IsSilent c r h i = grind arith

ws_pump-notes :
    (c : Connection) (rs : List WsReady)
    → IsSilent c
    → HasSeen (first_end rs) (state_of (ws_pump c rs)) ⊎ IsSilent (state_of (ws_pump c rs))
ws_pump-notes c [] i = unfold ws_pump in inr i
ws_pump-notes c (r ∷ rs) i = elim (Option-cases r.app) [
  | inl pending ↦ elim (Option-cases (outcome (ws_turn c r))) [
    | inl more ↦
        rw (ws_pump-again c r rs more, first_end-pending r rs pending)
          (ws_pump-notes (state_of (ws_turn c r)) rs (ws_turn-IsSilent c r pending i))
    | inr (u, over) ↦ rw (ws_pump-done c r rs over) (inr (ws_turn-IsSilent c r pending i))
  ]
  | inr (raised, ended) ↦
      let (over, is_done, said) = ws_turn-ended c r raised ended i in
      rw (ws_pump-done c r rs over, first_end-ended r rs raised ended)
        (inl (raised, refl, is_done, said))
]

-- What is said by the end, depending on the application's first event. An application whose
-- channel ends before it accepts is not awaited.
abbrev pub Told : First → List WsReady → Late → List Note → Type 0
Told (event (some WsEvent.accept)) rs late notes =
    ((raised : Bool) × (first_end rs ≡ some raised) × (notes ≡ noted (some raised)))
    ⊎ (notes ≡ (if late.cut then [] else noted late.ending))
Told (event none) rs late notes = notes ≡ []
Told _ rs late notes = notes ≡ noted late.ending

pump_and_stop-Told :
    (c : Connection) (rs : List WsReady) (late : Late)
    → outcome (pump_and_stop c rs late) ≡ some tt
    → IsSilent c
    → Told (event (some WsEvent.accept)) rs late (state_of (pump_and_stop c rs late)).notes
unfolding pump_and_stop
pump_and_stop-Told c rs late over i = elim (ws_pump-notes c rs i) [
  | inl (raised, first, is_done, said) ↦ inl (raised, first, ground arith)
  | inr (running, said) ↦ inr (ground arith)
]

handshake-Told :
    (c : Connection) (f : First) (rs : List WsReady) (late : Late)
    → outcome (handshake c f rs late) ≡ some tt
    → IsSilent c
    → Told f rs late (state_of (handshake c f rs late)).notes
unfolding handshake
handshake-Told c (event (some WsEvent.accept)) rs late over i = pump_and_stop-Told c rs late over i
handshake-Told c (event (some (WsEvent.close n r))) rs late over i = ground arith
handshake-Told c (event (some (WsEvent.send_text t))) rs late over i = ground arith
handshake-Told c (event (some (WsEvent.send_bytes b))) rs late over i = ground arith
handshake-Told c (event none) rs late over i = ground arith
handshake-Told c timeout rs late over i = ground arith

-- A connection that is over, and whose application got its connect message, has said how the
-- application ended: its exception is printed if it raised one, in the pump or in the time that it
-- gets behind the connection, and that it has not ended is said if it has not. The
-- exception or the delay goes unsaid only if the application's channel ends before it accepts, or if
-- it is still running when the second bound behind the pump passes first.
pub drive_websocket-Told :
    (s : WsScript)
    → s.setup_ok ≡ true
    → s.connect_ok ≡ true
    → outcome (drive_websocket s) ≡ some tt
    → Told s.first s.turns s.late (state_of (drive_websocket s)).notes
unfolding drive_websocket opened
drive_websocket-Told s a b over =
    let c = feed opened true WsInbound.connect in
    rw (a, b) (handshake-Told c s.first s.turns s.late (ground arith) (refl, refl))
