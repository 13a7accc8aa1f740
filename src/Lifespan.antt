-- ===== src/Lifespan.antt =====
-- src/lifespan.rs: the ASGI lifespan protocol, and the decision of src/lib.rs, `serve_process_on`,
-- on its outcome.
pub mod Laws
pub mod Queue
pub mod QueueLaws
use rustasgi.Base.{
  ℕ, Bool, true, false, ◌&&◌, List, [], ◌∷◌, Option, none, some, if◌then◌else◌, Result, ok, err,
  ◌>>=◌, ◌>>◌, guard,
}
use rustasgi.Base.Text.{codes, bytes_eq, to_ascii_lowercase}
use rustasgi.Message.{get_or}
use rustasgi.Python.{PyApi}
use Prim.Native.String.{String}
use text.Mathlib.Text.{◌==◌ as str_eq}

pub data LifespanMode : Type 0 where
  off auto on : LifespanMode

unfoldable pub parse : List ℕ → LifespanMode
parse s =
    let lower = to_ascii_lowercase s in
    if bytes_eq lower (codes "off") then off else if bytes_eq lower (codes "on") then on else auto

-- The reply's type is part of one text.
pub data LifespanError : Type 0 where
  unsupported : String → LifespanError
  unexpected_reply : String → LifespanError
  failed : String → LifespanError

-- `matches!(e, LifespanError::Unsupported(_))`.
abbrev pub is_unsupported : LifespanError → Bool
is_unsupported (unsupported _) = true
is_unsupported (unexpected_reply _) = true
is_unsupported (failed _) = false

-- What the steps before the race do: whether each succeeds, and the result of `queue_put`.
pub record Steps : Type 0 where
  pub init_call : Bool
  pub init_submit : Bool
  pub init_done : Bool
  pub extracted : Bool
  pub scope_built : Bool
  pub app_called : Bool
  pub app_submitted : Bool
  pub put : Result String (Unit {0})

module _ (py : PyApi) where
  open py use {Obj, get_item, extract_str}

  -- One poll of the biased select: `queue_get`, with `none` inside for an exception; the
  -- application's end; the timeout.
  pub record Poll : Type 0 where
    pub get : Option (Option Obj)
    pub app_exited : Bool
    pub timed_out : Bool

  -- The reply, or `none` for an application that ended first and for the timeout.
  unfoldable pub race : List Poll → Option (Option (Option Obj))
  race [] = none
  race (p ∷ ps) =
      let later = race ps in
      elim p.get [
        | some r ↦ some (some r)
        | none ↦ if p.app_exited then some none else if p.timed_out then some none else later
      ]

  -- `get_item(key).ok().and_then(|v| v.extract().ok())`.
  unfoldable pub text_at : Obj → String → Option String
  text_at msg key = elim (get_item msg key) [ none ↦ none | some v ↦ extract_str v ]

  -- The captured `state` of a complete reply.
  unfoldable pub read_reply : Option (Option Obj) → Result LifespanError (Option Obj)
  unfolding text_at
  read_reply (some (some msg)) =
      let msg_type = get_or (text_at msg "type") "" in
      if str_eq msg_type "lifespan.startup.complete"
      then ok (get_item msg "state")
      else if str_eq msg_type "lifespan.startup.failed"
      then err (failed (get_or (text_at msg "message") "unknown"))
      else err (unexpected_reply msg_type)
  read_reply (some none) = err (unsupported "lifespan reply failed")
  read_reply none = err (unsupported "app exited without a lifespan reply (or timed out)")

  put_or_unsupported : Result String (Unit {0}) → Result LifespanError (Unit {0})
  put_or_unsupported (ok u) = ok u
  put_or_unsupported (err e) = err (unsupported e)

  unfoldable pub prepare : Steps → Result LifespanError (Unit {0})
  unfolding put_or_unsupported
  prepare s = do
    guard s.init_call (unsupported "could not create lifespan channel")
    guard s.init_submit (unsupported "could not submit lifespan init")
    guard s.init_done (unsupported "lifespan init failed")
    guard s.extracted (unsupported "bad lifespan channel")
    guard s.scope_built (unsupported "could not build lifespan scope")
    guard s.app_called (unsupported "could not call lifespan app")
    guard s.app_submitted (unsupported "could not submit lifespan app")
    put_or_unsupported s.put

  -- `LifespanManager::startup`; the outer `none` while the race is open.
  abbrev after_prepare :
      Result LifespanError (Unit {0})
      → Option (Option (Option Obj))
      → Option (Result LifespanError (Option Obj))
  after_prepare (err e) raced = some (err e)
  after_prepare (ok _) none = none
  after_prepare (ok _) (some reply) = some (read_reply reply)

  unfoldable pub startup : Steps → List Poll → Option (Result LifespanError (Option Obj))
  startup s polls = after_prepare (prepare s) (race polls)

  -- What `serve_process_on` does about it: serve with this lifespan state and with a manager to shut
  -- down, serve without, or end with an error.
  pub data Decision : Type 0 where
    serve_managed : Option Obj → Decision
    serve_plain : Decision
    fatal : LifespanError → Decision

  is_auto : LifespanMode → Bool
  is_auto auto = true
  is_auto _ = false

  decide : LifespanMode → Result LifespanError (Option Obj) → Decision
  decide mode (ok state) = serve_managed state
  decide mode (err e) = if is_unsupported e && is_auto mode then serve_plain else fatal e

  run_startup : LifespanMode → Option (Result LifespanError (Option Obj)) → Option Decision
  run_startup mode none = none
  run_startup mode (some r) = some (decide mode r)

  unfoldable pub lifespan_phase : LifespanMode → Steps → List Poll → Option Decision
  unfolding run_startup decide is_auto
  lifespan_phase off s polls = some serve_plain
  lifespan_phase mode s polls = run_startup mode (startup s polls)

  -- `LifespanManager::shutdown`: what is logged; it never fails.
  pub data Farewell : Type 0 where
    silent : Farewell
    shutdown_failed : String → Farewell
    reply_failed : Farewell
    shutdown_timed_out : Farewell

  read_farewell : Option (Option Obj) → Farewell
  read_farewell none = shutdown_timed_out
  read_farewell (some none) = reply_failed
  read_farewell (some (some msg)) =
      if str_eq (get_or (text_at msg "type") "") "lifespan.shutdown.failed"
      then shutdown_failed (get_or (text_at msg "message") "unknown")
      else silent

  unfoldable pub shutdown : Bool → Option (Option Obj) → Farewell
  unfolding read_farewell text_at
  shutdown put_ok reply = if put_ok then read_farewell reply else silent
