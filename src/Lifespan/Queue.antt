-- ===== src/Lifespan/Queue.antt =====
-- src/lifespan.rs, `queue_put`: how a lifespan message reaches the application's queue.
use rustasgi.Base.{Option, none, some, Result, ok, err, ◌>>=◌}
use rustasgi.Call.Queue.{LoopState, into_future, Awaited, PutTexts, awaited_put, submitted}
use Prim.Native.String.{String, ◌++◌}

-- The calls of one put. A call that raises gives the exception's text.
pub record QueueCalls : Type 0 where
  pub dict_error : Option String
  pub put_error : Option String
  pub loop_state : LoopState
  pub awaited : Awaited

-- `.map_err(|e| format!("{label}{e}"))?`.
abbrev labelled : String → Option String → Result String (Unit {0})
labelled label none = ok tt
labelled label (some e) = err (label ++ e)

abbrev texts : PutTexts
texts = record {
  submit_failed = "lifespan submit failed";
  put_timed_out = "lifespan put timed out";
  put_failed = "lifespan put failed";
}

unfoldable pub queue_put : QueueCalls → Result String (Unit {0})
unfolding into_future
queue_put c = do
  set ← labelled "dict: " c.dict_error
  called ← labelled "queue.put: " c.put_error
  submit ← submitted texts (into_future c.loop_state)
  awaited_put texts c.awaited
