-- ===== src/Tests/Serves.antt =====
-- A worker with one listener that shuts down while a request is handled (src/server.rs, `serve`).
use rustasgi.Base.{ℕ, ◌≡◌, refl, Bool, true, false, List, [], ◌∷◌, some, arith, inl}
use rustasgi.Server.Shutdown.{graceful}
use rustasgi.Server.Worker.{enter, leave, Worker, fresh, act}
use rustasgi.Server.Serve.{
  Stage, serving, joining, draining, reporting, aborting, finished, Serve, start, connections, Step,
  accept, request, work, trigger, woken, acceptor_left, joined, drained, answered, reported, close,
  returned, Reach, here, next,
}
use rustasgi.Server.OverLaws.{serve-IsOver, drain_complete}

abbrev listeners : List ℕ
listeners = 8000 ∷ []

abbrev worker : ℕ → ℕ → ℕ → ℕ → Bool → Worker
worker completed admitted handling leaving shutting_down = record {
  in_flight = handling;
  completed = completed;
  shutting_down = shutting_down;
  turned_away = 0;
  admitted = admitted;
  handling = handling;
  leaving = leaving;
  streaming = 0;
}

abbrev at : Worker → ℕ → ℕ → Stage → Serve
at w acceptors idle stage = record {
  worker = w;
  acceptors = acceptors;
  idle = idle;
  quick_flag = false;
  timed_out = false;
  stage = stage;
}

-- The shutdown comes while the request is handled.
abbrev stopping : Serve
stopping = at (worker 0 0 1 0 true) 1 0 (joining graceful)

to_stopping : Reach 0 (start listeners) stopping
unfolding start fresh act
to_stopping =
    next
      (next
        (next
          (next (next here (accept (start listeners) (omega arith))) (
            request (at (worker 0 0 0 0 false) 1 1 serving) (worker 0 1 0 0 false) (omega arith)
              refl))
          (work (at (worker 0 1 0 0 false) 1 0 serving) enter (worker 0 0 1 0 false) refl refl))
        (trigger (at (worker 0 0 1 0 false) 1 0 serving) graceful (worker 0 0 1 0 true) refl))
      (woken (at (worker 0 0 1 0 true) 1 0 serving) refl refl)

abbrev drains : Serve
drains = at (worker 1 0 0 0 true) 0 1 draining

to_drains : Reach 0 (start listeners) drains
unfolding act
to_drains =
    next
      (next
        (next (next to_stopping (work stopping (leave false) (worker 0 0 0 1 true) refl refl))
          (answered (at (worker 0 0 0 1 true) 1 0 (joining graceful)) (worker 1 0 0 0 true) refl))
        (acceptor_left (at (worker 1 0 0 0 true) 1 1 (joining graceful)) (omega arith) refl))
      (joined (at (worker 1 0 0 0 true) 0 1 (joining graceful)) graceful refl refl)

abbrev reports : Serve
reports = at (worker 1 0 0 0 true) 0 1 reporting

leaves_drain : Step 0 drains reports
leaves_drain = drained drains refl (inl refl)

drain_complete_example :
    (drains.acceptors ≡ 0) × (drains.worker.handling ≡ 0) × (drains.worker.streaming ≡ 0)
drain_complete_example =
    drain_complete listeners 0 drains reports to_drains leaves_drain refl refl refl

abbrev over : Serve
over = at (worker 1 0 0 0 true) 0 0 (finished (some 0))

to_over : Reach 0 (start listeners) over
to_over =
    next
      (next (next (next to_drains leaves_drain) (reported reports refl))
        (close (at (worker 1 0 0 0 true) 0 1 (aborting (some 0))) (omega arith)))
      (returned (at (worker 1 0 0 0 true) 0 0 (aborting (some 0))) (some 0) refl refl)

serve-IsOver_example :
    (over.worker.shutting_down ≡ true)
    × (over.acceptors ≡ 0)
    × (connections over ≡ 0)
    × (over.worker.in_flight ≡ over.worker.streaming)
serve-IsOver_example = serve-IsOver listeners 0 over (some 0) to_over refl
