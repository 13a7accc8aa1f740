-- ===== src/Tests/Connections.antt =====
-- WebSocket connections of src/ws.rs, and the lifespan protocol of src/lifespan.rs.
use rustasgi.Base.{◌≡◌, refl, true, false, List, [], ◌∷◌, none, some, ok}
use rustasgi.Base.Text.{codes}
use rustasgi.Response.{state_of}
use rustasgi.Ws.{WsEvent, ClientMessage}
use rustasgi.Ws.FinishLaws.{Told, drive_websocket-Told}
use rustasgi.Ws.Driver.{
  pump_and_stop, handshake, ws_pump, ws_turn, WsReady, event, WsScript, drive_websocket,
}
use rustasgi.Ws.DriverLaws.{IsProper, drive_websocket-IsProper}
use rustasgi.Lifespan.{auto, failed, Steps, Poll, fatal, lifespan_phase}
use rustasgi.Lifespan.Laws.{refused, lifespan_phase-Follows}
use rustasgi.Tests.Values.{Value, string, dict, field, no_fields, toy}

abbrev idle : WsReady
idle = record { app = none; recv = none; next = none; send_ok = true; feed_ok = true }

abbrev chat : List WsReady
chat =
    record idle { next = some (ClientMessage.text (codes "hi")) }
    ∷ record idle { recv = some (some (WsEvent.send_text (codes "ho"))) }
    ∷ record idle { next = some (ClientMessage.close none) }
    ∷ []

abbrev pub accepted : WsScript
accepted = record {
  setup_ok = true;
  connect_ok = true;
  first = event (some WsEvent.accept);
  turns = chat;
  late = record { ending = some true; cut = false };
}

drive_websocket-IsProper_example : IsProper (state_of (drive_websocket accepted))
drive_websocket-IsProper_example = drive_websocket-IsProper accepted refl refl

drive_websocket-Told_example :
    Told
      (event (some WsEvent.accept))
      chat
      accepted.late
      (state_of (drive_websocket accepted)).notes
unfolding drive_websocket handshake pump_and_stop ws_pump ws_turn
drive_websocket-Told_example = drive_websocket-Told accepted refl refl refl

abbrev last_words : WsReady
last_words = record idle { app = some false; recv = some (some (WsEvent.close 4000 [])) }

abbrev greeting : Value
greeting = dict (field "type" (string "websocket.send") (field "text" (string "a") no_fields))

-- An application that is submitted and gets its message.
abbrev all_good : Steps
all_good = record {
  init_call = true;
  init_submit = true;
  init_done = true;
  extracted = true;
  scope_built = true;
  app_called = true;
  app_submitted = true;
  put = ok tt;
}

abbrev quiet : Poll toy
quiet = record { get = none; app_exited = false; timed_out = false }

abbrev failed_message : Value
failed_message = dict (
    field "type" (string "lifespan.startup.failed")
      (field "message" (string "no database") no_fields))

abbrev replies : Poll toy
replies = record { get = some (some failed_message); app_exited = true; timed_out = true }

-- The reply comes second, when the application has ended and the time is over.
lifespan_phase-Follows_example :
    lifespan_phase toy auto all_good (quiet ∷ replies ∷ []) ≡ some (fatal (failed "no database"))
lifespan_phase-Follows_example =
    lifespan_phase-Follows toy auto all_good (quiet ∷ []) [] replies failed_message
      (fatal (failed "no database")) (λ e. cc) (refl, refl, refl, refl, refl, refl, refl, refl)
      ((refl, refl, refl), tt) refl
      (refused auto failed_message (string "lifespan.startup.failed", refl, refl))
