-- ===== src/Tests/Exchanges.antt =====
-- One request from the application's messages to the client, over a channel that is a list.
use rustasgi.Base.{ℕ, ◌≡◌, refl, Bool, true, false, List, [], ◌∷◌, none, some, ok, ◌++◌, arith}
use rustasgi.Base.Text.{codes, bytes_eq}
use rustasgi.Metrics.{inc, enabled_by}
use rustasgi.Message.{Header, ResponseEvent, start, body, extract_header_pair, parse_send_message}
use rustasgi.Sink.{Sink, Reply, accepted, received}
use rustasgi.Sink.Push.{response_channel_bound, ws_channel_bound, Move, send, recv, run, act, push}
use rustasgi.Ws.{WsEvent, Frame, ClientMessage}
use rustasgi.Ws.Driver.{WsReady, WsScript, First, Connection, drive_websocket, ws_turn}
use rustasgi.Ws.Inputs.{
  Input, inputs, frame_of, pong_of, heard_of, concat_map, data_frame, pong_frame, data_message,
  event_frame,
}
use rustasgi.Ws.TransferLaws.{connected, drive_websocket-transfers}
use rustasgi.Ws.ExchangeLaws.{ws_exchange-frames}
use rustasgi.Sink.Steps.{all_taken}
use rustasgi.Response.{Ready, state_of}
use rustasgi.Response.Respond.{Script}
use rustasgi.Response.StreamLaws.{written}
use rustasgi.Response.Exchange.{response, seen}
use rustasgi.Response.HeadLaws.{values}
use rustasgi.Response.ExchangeLaws.{body_of, exchange-seen}
use rustasgi.Tests.Sinks.{lists, idle}
use rustasgi.Tests.Heads.{http, laws, get_all, cookies, answer}
use rustasgi.Tests.Values.{Value, string, byte_string, flag, dict, field, no_fields, toy}

abbrev chunk : List ℕ → Bool → Value
chunk content more = dict (
    field "type" (string "http.response.body")
      (field "body" (byte_string content) (field "more_body" (flag more) no_fields)))

abbrev events : List ResponseEvent
events = start 201 cookies ∷ body (codes "ab") true ∷ body [] false ∷ []

abbrev got : List ResponseEvent
got = body (codes "ab") true ∷ body [] false ∷ []

abbrev moves : List (Move ResponseEvent)
moves =
    send true (parse_send_message toy answer)
    ∷ send true (parse_send_message toy (chunk (codes "ab") true))
    ∷ recv
    ∷ send true (parse_send_message toy (chunk [] false))
    ∷ recv
    ∷ recv
    ∷ []

abbrev after : Sink {E = ResponseEvent} (lists response_channel_bound)
after = record { channel = (true, []); disconnected = false; waiting = none; metrics = idle }

abbrev replies : List (Reply ResponseEvent)
replies =
    accepted (start 201 cookies)
    ∷ accepted (body (codes "ab") true)
    ∷ received (some (start 201 cookies))
    ∷ accepted (body [] false)
    ∷ received (some (body (codes "ab") true))
    ∷ received (some (body [] false))
    ∷ []

abbrev quiet : Ready
quiet = record { recv = none; app = none; fed = none; deadline = false; client_gone = false }

abbrev yields : ResponseEvent → Ready
yields e = record quiet { recv = some (some e) }

abbrev script : Script
script = record {
  starts = record quiet { fed = some true } ∷ yields (start 201 cookies) ∷ [];
  turns =
      yields (body (codes "ab") true)
      ∷ record quiet { app = some false }
      ∷ yields (body [] false)
      ∷ [];
  poll = none;
  reaped = none;
}

exchange-seen_example :
    (later : List ResponseEvent) × (m : List Header) × (all_taken replies
      ≡ start 201 cookies ∷ later)
    × (seen http true false script ≡ response 201 m (written false (body_of later)))
    × ((n : List ℕ) → get_all m n ≡ values http 100 laws n cookies)
unfolding run act push parse_send_message extract_header_pair bytes_eq inc enabled_by
exchange-seen_example =
    exchange-seen http 100 laws toy (lists response_channel_bound) true false script idle moves
      after replies 201 cookies got
      (
        (answer, refl),
        ((chunk (codes "ab") true, refl), (tt, ((chunk [] false, refl), (tt, (tt, tt))))),
      )
      refl refl refl refl (refl, (refl, tt)) ((refl, refl), ((refl, refl), ((refl, refl), tt))) refl
      (omega arith)

-- A WebSocket whose application accepts, answers, and closes.
abbrev ws_events : List WsEvent
ws_events = WsEvent.send_text (codes "ho") ∷ WsEvent.close 1000 [] ∷ []

abbrev ws_moves : List (Move WsEvent)
ws_moves =
    send true (ok WsEvent.accept)
    ∷ recv
    ∷ send true (ok (WsEvent.send_text (codes "ho")))
    ∷ send true (ok (WsEvent.close 1000 []))
    ∷ recv
    ∷ recv
    ∷ []

abbrev ws_after : Sink {E = WsEvent} (lists ws_channel_bound)
ws_after = record { channel = (true, []); disconnected = false; waiting = none; metrics = idle }

abbrev ws_replies : List (Reply WsEvent)
ws_replies =
    accepted WsEvent.accept
    ∷ received (some WsEvent.accept)
    ∷ accepted (WsEvent.send_text (codes "ho"))
    ∷ accepted (WsEvent.close 1000 [])
    ∷ received (some (WsEvent.send_text (codes "ho")))
    ∷ received (some (WsEvent.close 1000 []))
    ∷ []

abbrev ws_idle : WsReady
ws_idle = record { app = none; recv = none; next = none; send_ok = true; feed_ok = true }

abbrev ws_script : WsScript
ws_script = record {
  setup_ok = true;
  connect_ok = true;
  first = First.event (some WsEvent.accept);
  turns =
      record ws_idle { next = some (ClientMessage.text (codes "hi")) }
      ∷ record ws_idle {
        recv = some (some (WsEvent.send_text (codes "ho")));
        next = some (ClientMessage.ping (codes "p"));
      }
      ∷ record ws_idle { next = some (ClientMessage.ping (codes "p")) }
      ∷ record ws_idle { recv = some (some (WsEvent.close 1000 [])) }
      ∷ [];
  late = record { ending = none; cut = true };
}

abbrev ws_client : Connection
ws_client = state_of (drive_websocket ws_script)

abbrev ws_inputs : List Input
ws_inputs = inputs connected ws_script.turns

drive_websocket-transfers_example :
    (concat_map data_frame ws_client.frames ≡ concat_map frame_of ws_inputs)
    × (concat_map pong_frame ws_client.frames ≡ concat_map pong_of ws_inputs)
    × (concat_map data_message ws_client.inbox ≡ concat_map heard_of ws_inputs)
drive_websocket-transfers_example =
    drive_websocket-transfers ws_script refl refl refl
      ((refl, refl), ((refl, refl), ((refl, refl), ((refl, refl), tt))))

ws_exchange-frames_example :
    (later : List WsEvent) × (missing : List Frame) × (all_taken ws_replies
      ≡ WsEvent.accept ∷ later)
    × (concat_map event_frame later ≡ concat_map data_frame ws_client.frames ++ missing)
unfolding run act push inc enabled_by inputs ws_turn
ws_exchange-frames_example =
    ws_exchange-frames (lists ws_channel_bound) idle ws_moves ws_after ws_replies ws_script refl
      refl refl refl refl
