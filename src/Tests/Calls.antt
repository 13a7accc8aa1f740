-- ===== src/Tests/Calls.antt =====
-- The scopes, the set-up of a call, and the accept loops (src/asgi.rs, src/ws.rs, src/server.rs).
use rustasgi.Base.{ℕ, ◌≡◌, ◌↔◌, inr, refl, true, false, [], ◌∷◌, Option, none, some, All}
use rustasgi.Base.Text.{codes, bytes_eq, to_ascii_lowercase, contains}
use rustasgi.Base.Words.{join}
use rustasgi.Request.Upgrade.{handle_request, upgrade, switch}
use rustasgi.Request.UpgradeLaws.{handle_request-upgrade}
use rustasgi.Request.Front.{HttpRequest, Place, RequestData, request_data, header_get}
use rustasgi.Call.Scope.{scope_get}
use rustasgi.Call.ScopeLaws.{shared_keys, http_of, ws_of, scopes-agree}
use rustasgi.Call.Establish.{Calls, establish_http_call}
use rustasgi.Call.EstablishLaws.{Decides, the_call, establish_http_call-Decides}
use rustasgi.Server.Accept.{
  pending, completed, TcpClient, accepted, Turn, in_handshake, tcp_endpoint, tcp_turn, accept_loop,
}
use rustasgi.Server.AcceptLaws.{spawned, accept_loop-stops}
use rustasgi.Tests.Requests.{io}

abbrev pub request : HttpRequest
request = record {
  method = codes "GET";
  version = 11;
  path = codes "/chat";
  query = none;
  scheme = none;
  headers = [];
}

abbrev pub place : Place
place = record {
  root_path = codes "/api";
  redirect_http_to_https = false;
  is_tls = true;
  client_host = codes "10.0.0.1";
  client_port = 4000;
  server_host = codes "10.0.0.2";
  server_port = 443;
}

abbrev pub state : Option ℕ
state = some 7

scopes-agree_example :
    All
      (λ k.
        scope_get k (http_of io state place request) ≡ scope_get k (ws_of io state place request))
      shared_keys
    × ((scope_get "root_path" (http_of io state place request)
          ≡ scope_get "root_path" (ws_of io state place request))
        ↔ (codes "/api" ≡ []))
scopes-agree_example = scopes-agree io state place request (inr refl)

-- Three clients: one whose handshake ends, one whose does not, and one behind it.
abbrev client : ℕ → TcpClient
client n = record { addr = n ∷ []; port = n; nodelay_ok = true; handshake = completed }

abbrev silent : TcpClient
silent = record (client 2) { handshake = pending }

abbrev turn : TcpClient → Turn TcpClient
turn c = record { is_set = false; yields = accepted c }

accept_loop-stops_example :
    let (es, stand) =
      accept_loop (tcp_turn [] 443 true) (turn (client 1) ∷ turn silent ∷ turn (client 3) ∷ []) in
    (spawned es ≡ tcp_endpoint [] 443 (client 1) true ∷ []) × (stand ≡ in_handshake)
accept_loop-stops_example =
    accept_loop-stops [] 443 true (turn (client 1) ∷ []) (turn (client 3) ∷ []) (turn silent)
      in_handshake (refl, tt) refl

abbrev pub calls : Calls
calls = record {
  sink = true;
  import_asyncio = true;
  queue = true;
  receive = true;
  send = true;
  init_coroutine = true;
  init_submitted = true;
  init_done = false;
  extracted = true;
  scope = true;
  app_coroutine = true;
  app_submitted = true;
}

abbrev data_of : RequestData
data_of = request_data io place request

establish_http_call-Decides_example :
    Decides false (the_call state data_of) (establish_http_call state data_of false calls)
establish_http_call-Decides_example = establish_http_call-Decides state data_of false calls

abbrev asks_upgrade : HttpRequest
asks_upgrade = record request {
  headers =
      (codes "upgrade", codes "WebSocket")
      ∷ (codes "connection", codes "keep-alive,Upgrade")
      ∷ (codes "sec-websocket-key", codes "abc")
      ∷ [];
}

abbrev redirecting : Place
redirecting = record place { redirect_http_to_https = true; is_tls = false }

handle_request-upgrade_example :
    handle_request io (λ t. t) (λ k. k) [] redirecting asks_upgrade ≡ upgrade (switch (codes "abc"))
unfolding header_get bytes_eq to_ascii_lowercase join contains
handle_request-upgrade_example =
    handle_request-upgrade io (λ t. t) (λ k. k) [] redirecting asks_upgrade (codes "WebSocket")
      (codes "Upgrade") (codes "abc") (codes "keep-alive" ∷ []) [] (codes "keep-alive")
      (codes "Upgrade" ∷ []) refl refl refl refl refl refl refl refl refl
