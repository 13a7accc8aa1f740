-- ===== src/Server/Drain.antt =====
-- src/server.rs: the end of `serve`, from the wake-up by the shutdown to its return.
use rustasgi.Base.{
  Bool, ℕ, zero, suc, ◌+◌, ◌&&◌, List, [], ◌∷◌, ◌++◌, Option, none, some, ltb, if◌then◌else◌,
}
use rustasgi.Server.Shutdown.{ShutdownKind, graceful, quick}

-- What one look at the counter and the clock finds: requests in flight, and the milliseconds since
-- the drain began.
pub record Look : Type 0 where
  pub in_flight : ℕ
  pub elapsed : ℕ

-- The `while` loop: round `i` looks, and sleeps if work is left and time too. The fuel bounds the
-- rounds; the result is the round in which the loop ended.
unfoldable pub drain_loop : ℕ → (ℕ → Look) → ℕ → ℕ → Option ℕ
drain_loop zero looks waited i = none
drain_loop (suc fuel) looks waited i =
    let later = drain_loop fuel looks waited (i + 1) in
    if ltb 0 (looks i).in_flight && ltb (looks i).elapsed waited then later else some i

pub data Event : Type 0 where
  -- `shutdown with {remaining} in-flight request(s)` or `shutdown complete`.
  incomplete : (remaining : ℕ) → Event
  complete : Event
  -- `connections.abort_all()` and the joins behind it, then `serve_done_tx.send(true)`.
  abort_connections : Event
  serve_done : Event

abbrev pub report : ℕ → Event
report remaining = if ltb 0 remaining then incomplete remaining else complete

-- The counter is read once more for the report, `after` the round in which the loop ended.
drained : (ℕ → ℕ) → Option ℕ → Option (List Event)
drained after none = none
drained after (some i) = some (report (after i) ∷ [])

-- The two loops over `join_next`: whether the accept loops leave, and the aborted connections end.
pub record Joins : Type 0 where
  pub acceptors : Bool
  pub connections : Bool

abort_events : Bool → List Event → Option (List Event)
abort_events ends es = if ends then some (es ++ abort_connections ∷ serve_done ∷ []) else none

then_abort : Joins → Option (List Event) → Option (List Event)
then_abort joins none = none
then_abort joins (some es) = abort_events joins.connections es

behind_join : ℕ → ShutdownKind → (ℕ → Look) → (ℕ → ℕ) → ℕ → Option (List Event)
behind_join fuel graceful looks after waited = drained after (drain_loop fuel looks waited 0)
behind_join fuel quick looks after waited = some []

-- `kind` is read once, in front of the join of the accept loops. A quick shutdown skips the drain.
-- `none` is a `serve` that does not return.
unfoldable pub serve_end : Joins → ℕ → ShutdownKind → (ℕ → Look) → (ℕ → ℕ) → ℕ → Option (List Event)
unfolding drained then_abort abort_events behind_join
serve_end joins fuel kind looks after waited =
    if joins.acceptors then then_abort joins (behind_join fuel kind looks after waited) else none
