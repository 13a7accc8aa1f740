-- ===== src/Call/Establish.antt =====
-- src/asgi.rs, `establish_http_call` with `_init_http_channel` and `_Receive` of the bridge's Python
-- text; src/ws.rs, `setup_ws_call`.
use rustasgi.Base.{ℕ, Bool, not, List, ◌∷◌, Option, if◌then◌else◌, Result, ok, ◌>>◌, guard}
use rustasgi.Request.Front.{Place, Platform, RequestData}
use rustasgi.Call.Scope.{Scope, build_http_scope, WsHandshake, ws_scope}
use Prim.Native.String.{String}

abbrev pub request_queue_maxsize : ℕ
request_queue_maxsize = 64

abbrev pub ws_queue_maxsize : ℕ
ws_queue_maxsize = 64

abbrev pub c_attach : ℕ
c_attach = 5

-- What `receive()` gives before it reads the queue: the terminal message, once, or nothing.
pub data First : Type 0 where
  terminal streaming : First

-- The application's call: its scope, its `receive()` over a queue of this size, and its sink.
pub record Call (Obj : Type 0) : Type 0 where
  pub scope : Scope Obj
  pub first : First
  pub maxsize : ℕ

-- Which of the Python calls succeed. A path makes those that it needs, in this order.
pub record Calls : Type 0 where
  pub sink : Bool
  -- The direct path.
  pub import_asyncio : Bool
  pub queue : Bool
  pub receive : Bool
  pub send : Bool
  -- The path for Python before 3.10, and that of a WebSocket: the init coroutine, its submission,
  -- its end, and the three objects that it gives.
  pub init_coroutine : Bool
  pub init_submitted : Bool
  pub init_done : Bool
  pub extracted : Bool
  -- All paths.
  pub scope : Bool
  pub app_coroutine : Bool
  pub app_submitted : Bool

-- `first` of the direct path, and `_TERMINAL if terminal else _STREAMING` of the other.
abbrev pub first_direct : Bool → First
first_direct has_body = if has_body then streaming else terminal

abbrev pub first_legacy : Bool → First
first_legacy is_terminal = if is_terminal then terminal else streaming

abbrev init_failed : String
init_failed = "ASGI channel init failed"

abbrev submit_failed : String
submit_failed = "ASGI submit failed"

module _ {Obj : Type 0} (lifespan_state : Option Obj) (req : RequestData) where
  -- All in one attach.
  unfoldable pub direct : Calls → Result String (Call Obj)
  direct c = do
    guard c.sink init_failed
    guard c.import_asyncio init_failed
    guard c.queue init_failed
    guard c.receive init_failed
    guard c.send init_failed
    guard c.scope init_failed
    guard c.app_coroutine init_failed
    guard c.app_submitted init_failed
    ok (record {
      scope = build_http_scope lifespan_state req;
      first = first_direct req.has_body;
      maxsize = request_queue_maxsize;
    })

  unfoldable pub legacy : Calls → Result String (Call Obj)
  legacy c = do
    guard c.sink init_failed
    guard c.init_coroutine init_failed
    guard c.init_submitted init_failed
    guard c.init_done init_failed
    guard c.extracted init_failed
    guard c.scope submit_failed
    guard c.app_coroutine submit_failed
    guard c.app_submitted submit_failed
    ok (record {
      scope = build_http_scope lifespan_state req;
      first = first_legacy (not req.has_body);
      maxsize = request_queue_maxsize;
    })

  unfoldable pub establish_http_call : Bool → Calls → Result String (Call Obj)
  unfolding direct legacy
  establish_http_call direct_queue c = if direct_queue then direct c else legacy c

-- The attaches that are counted on the path of old Pythons: one behind the submission, one behind the
-- channel, one at the end; on the direct path one at the end.
unfoldable pub legacy_attaches : Calls → ℕ
legacy_attaches c =
    if not c.sink
    then 0
    else if not c.init_coroutine
    then 0
    else if not c.init_submitted
    then 0
    else if not c.init_done
    then 1
    else if not c.extracted
    then 1
    else if not c.scope
    then 2
    else if not c.app_coroutine
    then 2
    else if not c.app_submitted
    then 2
    else 3

-- `setup_ws_call`: a WebSocket has nothing to receive in front of its queue.
unfoldable pub setup_ws_call :
    (io : Platform) {Obj : Type 0}
    → Option Obj
    → WsHandshake
    → Place
    → Calls
    → Result String (Call Obj)
setup_ws_call io lifespan_state hs place c = do
  guard c.sink "ws sink failed"
  guard c.init_coroutine "ws channel init failed"
  guard c.init_submitted "ws channel init failed"
  guard c.init_done "ws channel init failed"
  guard c.extracted "ws channel init failed"
  guard c.scope "ws submit failed"
  guard c.app_coroutine "ws submit failed"
  guard c.app_submitted "ws submit failed"
  ok (record {
    scope = ws_scope io lifespan_state hs place;
    first = streaming;
    maxsize = ws_queue_maxsize;
  })

-- What the application's first `n` calls of `receive()` give: `_Receive.__call__`, over the messages
-- that are in the queue by then.
unfoldable pub received {ℓ} : {M : Type ℓ} → First → M → List M → List M
received terminal message queue = message ∷ queue
received streaming message queue = queue
