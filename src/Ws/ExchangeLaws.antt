-- ===== src/Ws/ExchangeLaws.antt =====
-- From the application's `send()` to the client of a WebSocket connection (src/ws.rs).
use rustasgi.Base.{◌≡◌, refl, sym, ap, ◌∙◌, true, List, [], ◌∷◌, ◌++◌, some, none}
use rustasgi.Metrics.{Metrics}
use rustasgi.Sink.{Mpsc, Sink, Reply}
use rustasgi.Sink.Push.{websocket, ws_channel_bound, Move, fresh, run}
use rustasgi.Sink.Steps.{all_taken, all_given}
use rustasgi.Sink.Laws.{run-IsFifo}
use rustasgi.Response.{state_of}
use rustasgi.Ws.{WsEvent, Frame}
use rustasgi.Ws.Driver.{First, WsScript, drive_websocket}
use rustasgi.Ws.Inputs.{
  Input, event, returned, message, nothing, inputs, frame_of, concat_map, data_frame, app_event,
  event_frame,
}
use rustasgi.Ws.TransferLaws.{concat_map-append, connected, drive_websocket-frames}

frame_of-event : (i : Input) → frame_of i ≡ concat_map event_frame (app_event i)
frame_of-event returned = refl
frame_of-event (event none) = refl
frame_of-event (event (some (WsEvent.send_text s))) = refl
frame_of-event (event (some (WsEvent.send_bytes b))) = refl
frame_of-event (event (some WsEvent.accept)) = refl
frame_of-event (event (some (WsEvent.close n r))) = refl
frame_of-event (message m) = refl
frame_of-event nothing = refl

frames_of-events :
    (is : List Input) → concat_map frame_of is ≡ concat_map event_frame (concat_map app_event is)
frames_of-events [] = refl
frames_of-events (i ∷ is) =
    ap (λ l. frame_of i ++ l) (frames_of-events is)
    ∙ ap (λ l. l ++ concat_map event_frame (concat_map app_event is)) (frame_of-event i)
    ∙ sym (concat_map-append event_frame (app_event i) (concat_map app_event is))

-- However the application's sends, the connection's loop and the client come one after another, the
-- text and binary frames that the client of an accepted connection gets are those that the sends of
-- the application stand for, in their order, each once, up to some point.
pub ws_exchange-frames :
    (M : Mpsc WsEvent ws_channel_bound) (metrics : Metrics) (ms : List (Move WsEvent))
    (sink : Sink M) (rs : List (Reply WsEvent)) (s : WsScript)
    → run M websocket (fresh M metrics) ms ≡ some (sink, rs)
    → s.setup_ok ≡ true
    → s.connect_ok ≡ true
    → s.first ≡ First.event (some WsEvent.accept)
    → all_given rs ≡ WsEvent.accept ∷ concat_map app_event (inputs connected s.turns)
    → (later : List WsEvent) × (missing : List Frame) × (all_taken rs ≡ WsEvent.accept ∷ later)
      × (concat_map event_frame later
          ≡ concat_map data_frame (state_of (drive_websocket s)).frames ++ missing)
ws_exchange-frames M metrics ms sink rs s ran a b f given =
    let (rest, taken, left) = run-IsFifo M websocket metrics ms sink rs ran in
    let frames = drive_websocket-frames s a b f in
    let events = concat_map app_event (inputs connected s.turns) in
    (
      events ++ rest,
      concat_map event_frame rest,
      taken ∙ ap (λ l. l ++ rest) given,
      concat_map-append event_frame events rest
          ∙ ap (λ l. l ++ concat_map event_frame rest)
              (sym (frames ∙ frames_of-events (inputs connected s.turns))),
    )
