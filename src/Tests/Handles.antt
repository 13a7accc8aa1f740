-- ===== src/Tests/Handles.antt =====
-- A request with a body over TLS, from its headers to the end of its response.
use rustasgi.Base.{false, length, ℕ, ◌≢◌, true, [], ◌∷◌, none, refl}
use rustasgi.Base.Text.{codes, bytes_eq, strip_prefix}
use rustasgi.Request.Front.{HttpRequest, header_get, front, request_data, body_loop}
use rustasgi.Call.Establish.{establish_http_call}
use rustasgi.Response.{drain_reaper}
use rustasgi.Response.Start.{waiting, start_turn, await_start}
use rustasgi.Response.Stream.{pump_turn, pump, settle_app, finish}
use rustasgi.Response.Respond.{enter, reap, deliver, conclude, respond}
use rustasgi.Response.Handle.{Context, handle_http}
use rustasgi.Response.HandleLaws.{handle_http-ends}
use rustasgi.Request.Upgrade.{handle_request, is_websocket_upgrade, upgrade_ok, connection_ok}
use rustasgi.Response.Head.{Entry}
use rustasgi.Server.Request.{access_lines, Events, serve_request, serve_dispatch}
use rustasgi.Server.RequestLaws.{IsReleased, serve_request-IsReleased}
use rustasgi.Tests.Connections.{accepted}
use rustasgi.Tests.Requests.{io}
use rustasgi.Tests.Calls.{request, place, state, calls}
use rustasgi.Tests.Responses.{script, late_script, all_effects}

abbrev context : Context ℕ
context = record {
  store = [];
  place = place;
  lifespan_state = state;
  direct_queue = true;
  calls = calls;
  init_ends = false;
}

abbrev posts : HttpRequest
posts = record request {
  method = codes "POST";
  headers = (codes "transfer-encoding", codes "chunked") ∷ [];
}

handle_http-ends_example : handle_http io context posts late_script ≢ none
handle_http-ends_example = handle_http-ends io context posts late_script refl refl refl

abbrev events : Events
events = record { script = script; upgraded = true; ws_script = accepted }

abbrev entry : ℕ → ℕ → Entry
entry status size = record {
  method = codes "POST";
  path = codes "/chat";
  query = [];
  status = status;
  size = size;
  duration = 5;
  client = codes "10.0.0.1";
}

serve_request-IsReleased_example :
    IsReleased 1 1 (length (access_lines none true entry all_effects)) all_effects
unfolding serve_request serve_dispatch handle_request is_websocket_upgrade upgrade_ok connection_ok
    header_get handle_http front request_data body_loop bytes_eq strip_prefix establish_http_call
    respond await_start start_turn waiting conclude deliver enter pump pump_turn finish settle_app
    reap drain_reaper
serve_request-IsReleased_example =
    serve_request-IsReleased io (λ t. t) (λ k. k) context posts events none true entry 201
      all_effects refl
