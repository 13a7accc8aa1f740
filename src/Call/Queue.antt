-- ===== src/Call/Queue.antt =====
-- src/asgi.rs: `into_future`, `feed_message`, `feed_disconnect`; src/ws.rs: `feed_ws`. Their waits
-- are bounded; what the loop does with a scheduled coroutine is an input.
use rustasgi.Base.{
  Bool, false, not, List, [], ◌∷◌, Option, none, some, if◌then◌else◌, Result, ok, err, ◌>>=◌, ◌>>◌,
  guard,
}
use rustasgi.Python.{PyErr, runtime_error, raised}
use rustasgi.Ws.{WsInbound}
use rustasgi.Call.Scope.{ScopeValue, str_value, byte_string}
use rustasgi.Base.Text.{codes}
use Prim.Native.String.{String}

-- What `into_future` asks the loop and the awaitable.
pub record LoopState : Type 0 where
  -- `is_running()`, false also if it raised or gave no bool.
  pub running : Bool
  pub has_close : Bool
  -- `into_future_with_locals` succeeds.
  pub schedules : Bool

-- The result, and whether the awaitable is closed instead of scheduled.
unfoldable pub into_future : LoopState → Result PyErr (Unit {0}) × Bool
into_future l =
    if not l.running
    then (err (runtime_error "event loop not running"), l.has_close)
    else if l.schedules
    then (ok tt, false)
    else (err raised, false)

-- How the awaited coroutine ends within the time that it gets.
pub data Awaited : Type 0 where
  finished exception timed_out : Awaited

-- The calls of one put: the message, the coroutine, its submission, and its end.
pub record PutCalls : Type 0 where
  pub built : Bool
  pub put_made : Bool
  pub loop_state : LoopState
  pub awaited : Awaited

-- The errors of a put, by what failed.
pub record PutTexts : Type 0 where
  pub submit_failed : String
  pub put_timed_out : String
  pub put_failed : String

abbrev pub awaited_put : PutTexts → Awaited → Result String (Unit {0})
awaited_put t finished = ok tt
awaited_put t exception = err t.put_failed
awaited_put t timed_out = err t.put_timed_out

abbrev pub submitted : PutTexts → Result PyErr (Unit {0}) × Bool → Result String (Unit {0})
submitted t (err e, closed) = err t.submit_failed
submitted t (ok u, closed) = ok tt

unfoldable pub put : PutTexts → PutCalls → Result String (Unit {0})
unfolding into_future
put t c = do
  guard c.built t.submit_failed
  guard c.put_made t.submit_failed
  submit ← submitted t (into_future c.loop_state)
  awaited_put t c.awaited

unfoldable pub feed_message : PutCalls → Result String (Unit {0})
unfolding put
feed_message = put (record {
  submit_failed = "request queue submit failed";
  put_timed_out = "request queue put timed out";
  put_failed = "request queue put failed";
})

-- The warning that `feed_disconnect` prints, if any.
abbrev warning : Result String (Unit {0}) → Option String
warning (ok u) = none
warning (err e) = some e

unfoldable pub feed_disconnect : PutCalls → Option String
unfolding put
feed_disconnect c = warning (
    put
      (record {
        submit_failed = "disconnect submit failed";
        put_timed_out = "disconnect wait timed out";
        put_failed = "disconnect wait failed";
      })
      c)

-- The dict that `feed_ws` puts into the queue.
unfoldable pub ws_message : {Obj : Type 0} → WsInbound → List (String × ScopeValue Obj)
ws_message WsInbound.connect = ("type", str_value (codes "websocket.connect")) ∷ []
ws_message (WsInbound.text s) =
    ("type", str_value (codes "websocket.receive")) ∷ ("text", str_value s) ∷ []
ws_message (WsInbound.bytes b) =
    ("type", str_value (codes "websocket.receive")) ∷ ("bytes", byte_string b) ∷ []
ws_message (WsInbound.disconnect code reason) =
    ("type", str_value (codes "websocket.disconnect"))
    ∷ ("code", ScopeValue.number code)
    ∷ ("reason", str_value reason)
    ∷ []

unfoldable pub feed_ws : PutCalls → Result String (Unit {0})
unfolding put
feed_ws = put (record {
  submit_failed = "ws queue submit failed";
  put_timed_out = "ws queue put timed out";
  put_failed = "ws queue put failed";
})
