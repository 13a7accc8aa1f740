-- ===== src/Ws/Inputs.antt =====
-- What the pump of a WebSocket connection takes from both sides (src/ws.rs), and what each stands for
-- on the other.
use rustasgi.Base.{Bool, true, false, List, [], ◌∷◌, ◌++◌, Option, none, some, if◌then◌else◌}
use rustasgi.Response.{outcome, state_of}
use rustasgi.Ws.{WsEvent, Frame, WsInbound, ClientMessage}
use rustasgi.Ws.Driver.{WsReady, Connection, ws_turn}

-- What a turn takes of that which is ready: the application's end, its next event unless it has
-- closed, and otherwise the client's next message.
pub data Input : Type 0 where
  returned : Input
  event : Option WsEvent → Input
  message : ClientMessage → Input
  nothing : Input

abbrev pub client_input : Option ClientMessage → Input
client_input (some m) = message m
client_input none = nothing

abbrev pub event_input : Bool → Option (Option WsEvent) → Option ClientMessage → Input
event_input false (some e) m = event e
event_input true (some e) m = client_input m
event_input closed none m = client_input m

abbrev pub input : Connection → WsReady → Input
input c r = elim r.app [
  | some _ ↦ if c.app_done then event_input c.app_closed r.recv r.next else returned
  | none ↦ event_input c.app_closed r.recv r.next
]

-- The inputs of a run up to its end.
unfoldable pub inputs : Connection → List WsReady → List Input
inputs c [] = []
inputs c (r ∷ rs) =
    let rest = inputs (state_of (ws_turn c r)) rs in
    input c r ∷ (elim (outcome (ws_turn c r)) [ none ↦ rest | some _ ↦ [] ])

-- The frame or message that an input stands for on the other side.
abbrev pub frame_of : Input → List Frame
frame_of (event (some (WsEvent.send_text s))) = Frame.text s ∷ []
frame_of (event (some (WsEvent.send_bytes b))) = Frame.binary b ∷ []
frame_of _ = []

abbrev pub pong_of : Input → List Frame
pong_of (message (ClientMessage.ping p)) = Frame.pong p ∷ []
pong_of _ = []

abbrev pub heard_of : Input → List WsInbound
heard_of (message (ClientMessage.text s)) = WsInbound.text s ∷ []
heard_of (message (ClientMessage.binary b)) = WsInbound.bytes b ∷ []
heard_of _ = []

abbrev pub concat_map {ℓ κ} : {A : Type ℓ} {B : Type κ} → (A → List B) → List A → List B
concat_map f [] = []
concat_map f (x ∷ xs) = f x ++ concat_map f xs

-- The data frames and the pongs among frames, and the data among messages.
abbrev pub data_frame : Frame → List Frame
data_frame (Frame.text s) = Frame.text s ∷ []
data_frame (Frame.binary b) = Frame.binary b ∷ []
data_frame _ = []

abbrev pub pong_frame : Frame → List Frame
pong_frame (Frame.pong p) = Frame.pong p ∷ []
pong_frame _ = []

abbrev pub data_message : WsInbound → List WsInbound
data_message (WsInbound.text s) = WsInbound.text s ∷ []
data_message (WsInbound.bytes b) = WsInbound.bytes b ∷ []
data_message _ = []

-- The events among the inputs, and the data frame that an event stands for.
abbrev pub app_event : Input → List WsEvent
app_event (event (some e)) = e ∷ []
app_event _ = []

abbrev pub event_frame : WsEvent → List Frame
event_frame (WsEvent.send_text s) = Frame.text s ∷ []
event_frame (WsEvent.send_bytes b) = Frame.binary b ∷ []
event_frame _ = []
