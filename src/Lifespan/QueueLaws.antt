-- ===== src/Lifespan/QueueLaws.antt =====
-- When a lifespan message reaches the application, and what a lost one means (src/lifespan.rs).
use rustasgi.Base.{◌≡◌, refl, ◌↔◌, ◌∙◌, true, none, some, List, ok, err, arith}
use Prim.Native.String.{String}
use rustasgi.Python.{PyApi}
use rustasgi.Call.Queue.{finished}
use rustasgi.Lifespan.{
  auto, on, unsupported, Steps, Poll, prepare, startup, serve_plain, fatal, lifespan_phase,
}
use rustasgi.Lifespan.Queue.{QueueCalls, queue_put}

-- A message is in the queue exactly if the dict and the coroutine are built, the loop runs and
-- takes the coroutine, and that ends without an exception within the time limit.
queue_put_iff :
    (c : QueueCalls)
    → (queue_put c ≡ ok tt) ↔ (
        (c.dict_error ≡ none)
        × (c.put_error ≡ none)
        × (c.loop_state.running ≡ true)
        × (c.loop_state.schedules ≡ true)
        × (c.awaited ≡ finished))
unfolding queue_put
queue_put_iff c =
    (λ h. (ground arith, ground arith, ground arith, ground arith, ground arith), λ h. ground arith)

module _ (py : PyApi) where
  prepare-lost :
      (s : Steps) (message : String)
      → prepare py (record s { put = ok tt }) ≡ ok tt
      → s.put ≡ err message
      → prepare py s ≡ err (unsupported message)
  unfolding prepare
  prepare-lost s message ready lost = ground arith

  -- A startup message that is lost means that lifespan is not supported, whatever the application
  -- does: `auto` serves without it, and `on` ends with the put's error.
  lifespan_phase-undelivered :
      (s : Steps) (c : QueueCalls) (polls : List (Poll py)) (message : String)
      → prepare py (record s { put = ok tt }) ≡ ok tt
      → s.put ≡ queue_put c
      → queue_put c ≡ err message
      → (lifespan_phase py auto s polls ≡ some serve_plain)
        × (lifespan_phase py on s polls ≡ some (fatal (unsupported message)))
  unfolding lifespan_phase startup
  lifespan_phase-undelivered s c polls message ready put lost =
      let p = prepare-lost s message ready (put ∙ lost) in (rw p refl, rw p refl)
