-- ===== src/Boot/Loop.antt =====
-- src/runtime.rs: the thread of the asyncio loop, `wait_loop_running` and `stop_asyncio_loop`.
use rustasgi.Base.{
  ℕ, zero, suc, ◌+◌, Bool, not, List, [], ◌∷◌, Option, none, some, ltb, if◌then◌else◌, Result, ok,
  err,
}

-- What the thread of the loop does, after which it ends: an error that it prints, or `run_forever`.
pub data ThreadEnd : Type 0 where
  import_failed set_loop_failed run_forever_raised run_forever_returned : ThreadEnd

-- The calls that `start_asyncio_loop` makes on the calling thread, and then on the new one.
pub record LoopCalls : Type 0 where
  pub import_asyncio : Bool
  pub new_event_loop : Bool
  pub spawn : Bool
  pub thread_import : Bool
  pub set_event_loop : Bool
  pub run_forever : Bool

pub data LoopError : Type 0 where
  raised thread_not_spawned not_started : LoopError

thread_body : LoopCalls → ThreadEnd
thread_body c =
    if not c.thread_import
    then import_failed
    else if not c.set_event_loop
    then set_loop_failed
    else if c.run_forever
    then run_forever_returned
    else run_forever_raised

unfoldable pub start_asyncio_loop : LoopCalls → Result LoopError ThreadEnd
unfolding thread_body
start_asyncio_loop c =
    if not c.import_asyncio
    then err raised
    else if not c.new_event_loop
    then err raised
    else if not c.spawn
    then err thread_not_spawned
    else ok (thread_body c)

-- One look at the loop: `is_running()`, false also if it raised or gave no bool, and the milliseconds
-- since the wait began.
pub record Look : Type 0 where
  pub running : Bool
  pub elapsed : ℕ

-- The `loop`: round `i` looks, and sleeps 10 milliseconds unless it returns. The fuel bounds the
-- rounds; the result carries the round in which the loop ended.
unfoldable pub wait_loop_running : ℕ → (ℕ → Look) → ℕ → Option (Result LoopError ℕ)
wait_loop_running zero looks i = none
wait_loop_running (suc fuel) looks i =
    let later = wait_loop_running fuel looks (i + 1) in
    if (looks i).running
    then some (ok i)
    else if ltb 10000 (looks i).elapsed
    then some (err not_started)
    else later

-- One `call_soon_threadsafe(stop)`: scheduled, a KeyboardInterrupt, or another exception.
pub data Attempt : Type 0 where
  scheduled interrupted failed : Attempt

-- `for _ in 0..n`: what the attempts made were.
unfoldable pub attempts : ℕ → List Attempt → List Attempt
attempts zero later = []
attempts (suc n) [] = []
attempts (suc n) (scheduled ∷ later) = scheduled ∷ []
attempts (suc n) (failed ∷ later) = failed ∷ []
attempts (suc n) (interrupted ∷ later) = interrupted ∷ attempts n later

-- `stop_asyncio_loop`, from `is_running()`, whether the loop has `stop`, and what attempts would give.
unfoldable pub stop_asyncio_loop : Bool → Bool → List Attempt → List Attempt
unfolding attempts
stop_asyncio_loop running has_stop tries =
    if not running then [] else if not has_stop then [] else attempts 3 tries
