-- ===== src/Response/Handle.antt =====
-- src/server.rs, `handle_http` as a whole: the front, the call of the application, and the response.
use rustasgi.Base.{
  ℕ, Bool, List, [], ◌∷◌, Option, none, some, not, ◌&&◌, if◌then◌else◌, Result, ok, err,
}
use rustasgi.Base.Text.{codes, bytes_eq}
use rustasgi.Challenge.{Entries}
use rustasgi.Request.Front.{Platform, Place, HttpRequest, Front, reply, call, front}
use rustasgi.Call.Establish.{Call, Calls, establish_http_call}
use rustasgi.Response.{Effect, log_access, drop_guard}
use rustasgi.Response.Respond.{Script, respond}
use Prim.Native.String.{String}

-- What the state of the worker and its Python contribute to a request.
pub record Context (Obj : Type 0) : Type 0 where
  pub store : Entries
  pub place : Place
  pub lifespan_state : Option Obj
  -- The interpreter's version allows the direct path of `establish_http_call`.
  pub direct_queue : Bool
  pub calls : Calls
  -- The init coroutine of the other path ends; nothing bounds the wait for it.
  pub init_ends : Bool

-- `parts.method == http::Method::HEAD`.
abbrev pub is_head : HttpRequest → Bool
is_head req = bytes_eq req.method (codes "HEAD")

-- What follows the set-up of the call. Where it failed, the `return` drops the guard.
unfoldable pub serve_call :
    {Obj : Type 0} → Bool → Bool → Script → Result String (Call Obj) → Option (ℕ × List Effect)
serve_call has_body head s (err e) = some (500, log_access 500 0 ∷ drop_guard ∷ [])
serve_call has_body head s (ok c) = respond has_body head s

-- The set-up gets to the wait for the init coroutine.
abbrev pub awaits_init : {Obj : Type 0} → Context Obj → Bool
awaits_init ctx =
    not ctx.direct_queue
    && (ctx.calls.sink && (ctx.calls.init_coroutine && ctx.calls.init_submitted))

module _ (io : Platform) {Obj : Type 0} (ctx : Context Obj) where
  -- A reply of Rust's own is not logged; its `return` drops the guard.
  unfoldable pub handle_front : HttpRequest → Script → Front → Option (ℕ × List Effect)
  unfolding serve_call
  handle_front req s (reply r) = some (r.status, drop_guard ∷ [])
  handle_front req s (call request) =
      if awaits_init ctx && not ctx.init_ends
      then none
      else serve_call request.has_body (is_head req) s
          (establish_http_call ctx.lifespan_state request ctx.direct_queue ctx.calls)

  -- The status and the effects of a request; `none` while it is not over.
  unfoldable pub handle_http : HttpRequest → Script → Option (ℕ × List Effect)
  unfolding handle_front
  handle_http req s = handle_front req s (front io ctx.store ctx.place req)
