-- ===== src/Ws/TransferLaws.antt =====
-- What the pump of a WebSocket connection carries in both directions (src/ws.rs).
use mathlib.Core.List.{append-nil, append_assoc}
use rustasgi.Base.{
  ◌≡◌, refl, sym, ap, ◌∙◌, true, false, List, [], ◌∷◌, ◌++◌, none, some, All, inl, inr,
  Option-cases, arith,
}
use rustasgi.Response.{outcome, state_of}
use rustasgi.Ws.{WsEvent, WsInbound}
use rustasgi.Ws.Inputs.{
  Input, input, inputs, frame_of, pong_of, heard_of, concat_map, data_frame, pong_frame,
  data_message,
}
use rustasgi.Ws.Driver.{
  Late, WsReady, Connection, First, WsScript, opened, ws_turn, ws_pump, pump_and_stop, handshake,
  drive_websocket,
}
use rustasgi.Ws.DriverLaws.{ws_pump-again, ws_pump-done}

pub concat_map-append {ℓ κ} :
    {A : Type ℓ} {B : Type κ} (f : A → List B) (xs ys : List A)
    → concat_map f (xs ++ ys) ≡ concat_map f xs ++ concat_map f ys
concat_map-append f [] ys = refl
concat_map-append f (x ∷ xs) ys =
    ap (λ l. f x ++ l) (concat_map-append f xs ys)
    ∙ sym (append_assoc (f x) (concat_map f xs) (concat_map f ys))

turn_frames :
    (c : Connection) (r : WsReady)
    → concat_map data_frame (state_of (ws_turn c r)).frames
      ≡ concat_map data_frame c.frames ++ frame_of (input c r)
unfolding ws_turn
turn_frames c r = grind (arith, concat_map-append, append-nil)

turn_pongs :
    (c : Connection) (r : WsReady)
    → concat_map pong_frame (state_of (ws_turn c r)).frames
      ≡ concat_map pong_frame c.frames ++ pong_of (input c r)
unfolding ws_turn
turn_pongs c r = grind (arith, concat_map-append, append-nil)

turn_heard :
    (c : Connection) (r : WsReady)
    → r.feed_ok ≡ true
    → concat_map data_message (state_of (ws_turn c r)).inbox
      ≡ concat_map data_message c.inbox ++ heard_of (input c r)
unfolding ws_turn
turn_heard c r h = grind (arith, concat_map-append, append-nil)

inputs-again :
    (c : Connection) (r : WsReady) (rs : List WsReady)
    → outcome (ws_turn c r) ≡ none
    → inputs c (r ∷ rs) ≡ input c r ∷ inputs (state_of (ws_turn c r)) rs
unfolding inputs
inputs-again c r rs h = rw h refl

inputs-done :
    (c : Connection) (r : WsReady) (rs : List WsReady) {u : Unit {0}}
    → outcome (ws_turn c r) ≡ some u
    → inputs c (r ∷ rs) ≡ input c r ∷ []
unfolding inputs
inputs-done c r rs h = rw h refl

-- A view of the connection to which each turn adds what its input stands for.
module _ {A : Type 0} (view : Connection → List A) (of : Input → List A) where
  abbrev AddsEach : WsReady → Type 0
  AddsEach r = (c : Connection) → view (state_of (ws_turn c r)) ≡ view c ++ of (input c r)

  pump_adds :
      (c : Connection) (rs : List WsReady)
      → All AddsEach rs
      → view (state_of (ws_pump c rs)) ≡ view c ++ concat_map of (inputs c rs)
  pump_adds c [] h = unfold ws_pump inputs in sym (append-nil (view c))
  pump_adds c (r ∷ rs) (h, hs) = elim (Option-cases (outcome (ws_turn c r))) [
    | inl more ↦
        rw (ws_pump-again c r rs more, inputs-again c r rs more)
          (pump_adds (state_of (ws_turn c r)) rs hs
            ∙ ap (λ l. l ++ concat_map of (inputs (state_of (ws_turn c r)) rs)) (h c)
            ∙ append_assoc (view c) (of (input c r))
                (concat_map of (inputs (state_of (ws_turn c r)) rs)))
    | inr (u, over) ↦
        rw (ws_pump-done c r rs over, inputs-done c r rs over, append-nil (of (input c r))) (h c)
  ]

-- The transport takes every frame, and the application's queue every message.
abbrev pub IsSmooth : WsReady → Type 0
IsSmooth r = (r.send_ok ≡ true) × (r.feed_ok ≡ true)

All-imp {ℓ κ λ'} :
    {A : Type ℓ} (P : A → Type κ) (Q : A → Type λ') (xs : List A)
    → ((x : A) → P x → Q x)
    → All P xs
    → All Q xs
All-imp P Q [] f h = tt
All-imp P Q (x ∷ xs) f (h, hs) = (f x h, All-imp P Q xs f hs)

-- The connection when the pump starts: the queue has the connect message.
abbrev pub connected : Connection
connected = record {
  app_done = false;
  app_closed = false;
  disconnected = false;
  frames = [];
  inbox = WsInbound.connect ∷ [];
  notes = [];
}

pump_and_stop-same :
    (c : Connection) (rs : List WsReady) (late : Late)
    → ((state_of (pump_and_stop c rs late)).frames ≡ (state_of (ws_pump c rs)).frames)
      × ((state_of (pump_and_stop c rs late)).inbox ≡ (state_of (ws_pump c rs)).inbox)
unfolding pump_and_stop
pump_and_stop-same c rs late = (ground arith, ground arith)

drive_websocket-pump :
    (s : WsScript)
    → s.setup_ok ≡ true
    → s.connect_ok ≡ true
    → s.first ≡ First.event (some WsEvent.accept)
    → drive_websocket s ≡ pump_and_stop connected s.turns s.late
unfolding drive_websocket handshake opened
drive_websocket-pump s a b f = rw (a, b, f) refl

always {ℓ κ} : {A : Type ℓ} (Q : A → Type κ) (xs : List A) → ((x : A) → Q x) → All Q xs
always Q [] f = tt
always Q (x ∷ xs) f = (f x, always Q xs f)

pub drive_websocket-frames :
    (s : WsScript)
    → s.setup_ok ≡ true
    → s.connect_ok ≡ true
    → s.first ≡ First.event (some WsEvent.accept)
    → concat_map data_frame (state_of (drive_websocket s)).frames
      ≡ concat_map frame_of (inputs connected s.turns)
drive_websocket-frames s a b f =
    rw (drive_websocket-pump s a b f, (pump_and_stop-same connected s.turns s.late).0)
      (pump_adds (λ c. concat_map data_frame c.frames) frame_of connected s.turns
        (always _ s.turns (λ r c. turn_frames c r)))

-- Once the application has accepted, and as long as the transport takes the frames and the
-- application's queue the messages, the two sides of a connection see each other's messages: the text
-- and binary frames that are sent are those of the events that the pump took from the application, the
-- pongs those of the client's pings, and the application's queue has the client's texts and bytes; each
-- once and in order.
pub drive_websocket-transfers :
    (s : WsScript)
    → s.setup_ok ≡ true
    → s.connect_ok ≡ true
    → s.first ≡ First.event (some WsEvent.accept)
    → All IsSmooth s.turns
    → let c = state_of (drive_websocket s) in
      let ins = inputs connected s.turns in
      (concat_map data_frame c.frames ≡ concat_map frame_of ins)
      × (concat_map pong_frame c.frames ≡ concat_map pong_of ins)
      × (concat_map data_message c.inbox ≡ concat_map heard_of ins)
drive_websocket-transfers s a b f h =
    let (frames, inbox) = pump_and_stop-same connected s.turns s.late in
    (
      drive_websocket-frames s a b f,
      rw (drive_websocket-pump s a b f, frames)
          (pump_adds (λ c. concat_map pong_frame c.frames) pong_of connected s.turns
            (always _ s.turns (λ r c. turn_pongs c r))),
      rw (drive_websocket-pump s a b f, inbox)
          (pump_adds (λ c. concat_map data_message c.inbox) heard_of connected s.turns
            (All-imp _ _ s.turns (λ r t c. turn_heard c r t.1) h)),
    )
