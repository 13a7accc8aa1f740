-- ===== src/Response/Respond.antt =====
-- src/server.rs, `handle_http` from the established call to its end: the wait for the start event,
-- then either a 500 or the forwarding task, and the reaper where one is spawned.
use rustasgi.Base.{ℕ, Bool, false, ◌&&◌, List, [], ◌∷◌, ◌++◌, Option, none, some}
use rustasgi.Response.{Ready, Effect, spawn_reaper, drop_guard, Turn, again, done, drain_reaper}
use rustasgi.Response.Start.{Waiting, Answer, started, refused, waiting, await_start}
use rustasgi.Response.Stream.{Pump, Step, pump, finish}

-- All that the outside world does to one request.
pub record Script : Type 0 where
  -- What the polls of the first loop find, then those of the task.
  pub starts : List Ready
  pub turns : List Ready
  -- The poll of the application's future behind the task's loop.
  pub poll : Option Bool
  -- What a reaper sees.
  pub reaped : Option Bool

-- The variables that the spawned task starts from.
unfoldable pub enter : Bool → Bool → Waiting → Pump
enter has_body is_head w = record {
  is_head = is_head;
  sent = [];
  bytes_sent = 0;
  feeding = has_body && w.streaming;
  streaming = w.streaming;
  app_done = w.app_done;
  app_logged = w.app_logged;
  disconnected = false;
  effects = w.effects;
}

-- A reaper that gets a pending future reports its end; one that gets a completed future polls it
-- again, which panics in the detached task and reports nothing.
unfoldable pub reap : Bool → Option Bool → List Effect → List Effect
reap logged reaped [] = []
reap logged reaped (spawn_reaper false ∷ es) =
    spawn_reaper false ∷ reap logged reaped es ++ drain_reaper logged reaped
reap logged reaped (e ∷ es) = e ∷ reap logged reaped es

-- The task's end: its status and the effects of the whole request.
unfoldable pub deliver : ℕ → Script → Step → Option (ℕ × List Effect)
deliver status s (again p) = none
deliver status s (done p _) =
    let q = finish status p s.poll in some (status, reap q.app_logged s.reaped q.effects)

-- What follows the first loop. A `return` drops the guard of `handle_http`.
unfoldable pub conclude : Bool → Bool → Script → Turn Waiting Answer → Option (ℕ × List Effect)
conclude has_body is_head s (again w) = none
conclude has_body is_head s (done w refused) =
    some (500, reap w.app_logged s.reaped (w.effects ++ drop_guard ∷ []))
conclude has_body is_head s (done w (started status headers)) =
    deliver status s (pump (enter has_body is_head w) s.turns)

-- The status and the effects of the whole request; `none` while it is not over.
unfoldable pub respond : Bool → Bool → Script → Option (ℕ × List Effect)
unfolding conclude deliver enter
respond has_body is_head s = conclude has_body is_head s (await_start (waiting has_body) s.starts)
