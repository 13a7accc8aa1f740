-- ===== src/Call/Scope.antt =====
-- src/asgi.rs, `build_http_scope`; src/ws.rs, `WsHandshake` and the scope of `setup_ws_call`;
-- src/server.rs, the handshake data of `handle_websocket_upgrade`.
use rustasgi.Base.{ℕ, Bool, List, [], ◌∷◌, Option, none, some, if◌then◌else◌, ◌==◌}
use rustasgi.Base.Text.{codes}
use rustasgi.Message.{Header, get_or}
use rustasgi.Percent.{percent_decode}
use rustasgi.Request.Front.{HttpRequest, Place, Platform, RequestData}
use Prim.Native.String.{String}
use text.Mathlib.Text.{◌==◌ as str_eq}

-- A value that the code puts into a scope; `object` is a Python object that it passes on.
pub data ScopeValue (Obj : Type 0) : Type 0 where
  str_value : List ℕ → ScopeValue Obj
  byte_string : List ℕ → ScopeValue Obj
  header_list : List Header → ScopeValue Obj
  number : ℕ → ScopeValue Obj
  address : (host : List ℕ) (port : ℕ) → ScopeValue Obj
  versions : (version spec_version : String) → ScopeValue Obj
  empty_dict empty_list : ScopeValue Obj
  object : Obj → ScopeValue Obj

-- A dict with the entries in the order in which they are set; no key is set twice.
abbrev pub Scope : Type 0 → Type 0
Scope Obj = List (String × ScopeValue Obj)

abbrev pub scope_get : {Obj : Type 0} → String → Scope Obj → Option (ScopeValue Obj)
scope_get key [] = none
scope_get key ((k, v) ∷ rest) = if str_eq k key then some v else scope_get key rest

-- The server's lifespan state, or a new dict.
abbrev pub state_value : {Obj : Type 0} → Option Obj → ScopeValue Obj
state_value (some state) = object state
state_value none = empty_dict

unfoldable pub build_http_scope : {Obj : Type 0} → Option Obj → RequestData → Scope Obj
build_http_scope lifespan_state req =
    ("type", str_value (codes "http"))
    ∷ ("asgi", versions "3.0" "2.5")
    ∷ ("http_version", str_value req.http_version)
    ∷ ("method", str_value req.method)
    ∷ ("scheme", str_value req.scheme)
    ∷ ("path", str_value req.path)
    ∷ ("raw_path", byte_string req.raw_path)
    ∷ ("query_string", byte_string req.query_string)
    ∷ ("root_path", str_value req.root_path)
    ∷ ("headers", header_list req.headers)
    ∷ ("client", address req.client_host req.client_port)
    ∷ ("server", address req.server_host req.server_port)
    ∷ ("extensions", empty_dict)
    ∷ ("state", state_value lifespan_state)
    ∷ []

pub record WsHandshake : Type 0 where
  pub path : List ℕ
  pub raw_path : List ℕ
  pub query_string : List ℕ
  pub headers : List Header
  pub scheme : List ℕ
  pub http_version : List ℕ

-- The `match req.version()` of the upgrade, on 10, 11, 20 or 30 for HTTP/1.0, 1.1, 2 and 3.
abbrev pub ws_version_str : ℕ → List ℕ
ws_version_str v = if v == 10 then codes "1.0" else if v == 20 then codes "2" else codes "1.1"

unfoldable pub handshake_of : Bool → HttpRequest → WsHandshake
handshake_of is_tls req = record {
  path = req.path;
  raw_path = req.path;
  query_string = get_or req.query [];
  headers = req.headers;
  scheme = if is_tls then codes "wss" else codes "ws";
  http_version = ws_version_str req.version;
}

module _ (io : Platform) {Obj : Type 0} where
  -- The scope that `setup_ws_call` builds, for the addresses of the connection.
  unfoldable pub ws_scope : Option Obj → WsHandshake → Place → Scope Obj
  ws_scope lifespan_state hs place =
      ("type", str_value (codes "websocket"))
      ∷ ("asgi", versions "3.0" "2.5")
      ∷ ("http_version", str_value hs.http_version)
      ∷ ("scheme", str_value hs.scheme)
      ∷ ("path", str_value (percent_decode io.from_utf8_lossy hs.path))
      ∷ ("raw_path", byte_string hs.raw_path)
      ∷ ("query_string", byte_string hs.query_string)
      ∷ ("root_path", str_value [])
      ∷ ("headers", header_list hs.headers)
      ∷ ("client", address place.client_host place.client_port)
      ∷ ("server", address place.server_host place.server_port)
      ∷ ("extensions", empty_dict)
      ∷ ("state", state_value lifespan_state)
      ∷ ("subprotocols", empty_list)
      ∷ []
