-- ===== src/Server/Advance.antt =====
-- A worker that shuts down and has not aborted its connections can take a step that loses no request (src/server.rs,
-- `serve`).
use rustasgi.Base.{
  ap, ℕ, suc, ◌+◌, ◌-◌, ◌*◌, ◌≤◌, ◌<◌, ◌≡◌, ◌⊎◌, inl, inr, refl, true, false, Option, none, some,
  arith, ltb, ltb→lt, Bool-cases,
}
use rustasgi.Server.Shutdown.{graceful, quick}
use rustasgi.Server.Worker.{enter, leave, count, finish_stream, Worker, act}
use rustasgi.Server.Serve.{
  Stage, serving, joining, draining, reporting, aborting, finished, Serve, connections, Step,
  acceptor_left, work, answered, close, joined, drained, reported,
}
use rustasgi.Server.ServeLaws.{IsSound}

-- How far `serve` is from its end.
abbrev pub rank : Stage → ℕ
rank serving = 5
rank (joining kind) = 4
rank draining = 3
rank reporting = 2
rank (aborting r) = 1
rank (finished r) = 0

abbrev pub to_do : Serve → ℕ
to_do s =
    rank s.stage
    + s.acceptors
    + 2 * s.idle
    + 5 * s.worker.admitted
    + 4 * s.worker.handling
    + 3 * s.worker.leaving
    + s.worker.streaming

-- The requests that were or may still be answered.
abbrev pub accepted : Serve → ℕ
accepted s = s.worker.completed + s.worker.admitted + s.worker.handling + s.worker.leaving

abbrev pub IsStopping : Serve → Type 0
IsStopping s = (s.worker.shutting_down ≡ true) × (rank s.stage ≤ 4) × (2 ≤ rank s.stage)

-- The step to the abort of the connections, with none left and no response streaming.
abbrev pub Ends : ℕ → Serve → Type 0
Ends n s =
    (t : Serve) × (r : Option ℕ) × Step n s t
    × (t.stage ≡ aborting r)
    × (connections t ≡ 0)
    × (t.worker.streaming ≡ 0)
    × (accepted t ≡ accepted s)

-- A step that loses no request.
abbrev pub Advances : ℕ → Serve → Type 0
Advances n s =
    (t : Serve) × Step n s t × IsStopping t × (to_do t < to_do s) × (accepted t ≡ accepted s)

abbrev enters : Worker → Worker
enters w = record w {
  in_flight = w.in_flight + 1;
  admitted = w.admitted - 1;
  handling = w.handling + 1;
}

abbrev leaves : Worker → Worker
leaves w = record w {
  in_flight = w.in_flight - 1;
  handling = w.handling - 1;
  leaving = w.leaving + 1;
}

abbrev counts : Worker → Worker
counts w = record w { completed = w.completed + 1; leaving = w.leaving - 1; shutting_down = true }

abbrev ends_stream : Worker → Worker
ends_stream w = record w { in_flight = w.in_flight - 1; streaming = w.streaming - 1 }

module _ (n : ℕ) where
  act-enters : (w : Worker) → 0 < w.admitted → act n w enter ≡ some (enters w)
  unfolding act
  act-enters w h = ground arith

  act-leaves : (w : Worker) → 0 < w.handling → act n w (leave false) ≡ some (leaves w)
  unfolding act
  act-leaves w h = ground arith

  act-counts :
      (w : Worker) → 0 < w.leaving → w.shutting_down ≡ true → act n w count ≡ some (counts w)
  unfolding act
  act-counts w h f = ground arith

  act-ends_stream : (w : Worker) → 0 < w.streaming → act n w finish_stream ≡ some (ends_stream w)
  unfolding act
  act-ends_stream w h = ground arith

  -- All that is left is the task of `serve`.
  stage_advances :
      (s : Serve) (stage : Stage)
      → s.stage ≡ stage
      → IsSound s
      → IsStopping s
      → s.acceptors ≡ 0
      → connections s ≡ 0
      → s.worker.streaming ≡ 0
      → Ends n s ⊎ Advances n s
  stage_advances s serving e i (f, w, v) a c z = absurd (ground (arith, ap rank e))
  stage_advances s (joining graceful) e i (f, w, v) a c z = inr (
    record s { stage = draining },
    joined s graceful e a,
    (f, omega arith, omega arith),
    ground arith,
    refl,
  )
  stage_advances s (joining quick) e i (f, w, v) a c z =
      inl (record s { stage = aborting none }, none, joined s quick e a, refl, c, z, refl)
  stage_advances s draining e i (f, w, v) a c z = inr (
    record s { stage = reporting },
    drained s e (inl (omega (arith, i.guards))),
    (f, omega arith, omega arith),
    ground arith,
    refl,
  )
  stage_advances s reporting e i (f, w, v) a c z =
      let r = some s.worker.in_flight in
      inl (record s { stage = aborting r }, r, reported s e, refl, c, z, refl)
  stage_advances s (aborting r) e i (f, w, v) a c z = absurd (ground (arith, ap rank e))
  stage_advances s (finished r) e i (f, w, v) a c z = absurd (ground (arith, ap rank e))

  -- The first task that is not done takes a step.
  pub advance : (s : Serve) → IsSound s → IsStopping s → Ends n s ⊎ Advances n s
  advance s i (f, w, v) = elim (Bool-cases (ltb 0 s.worker.admitted)) [
    | inl h ↦ inr (
      record s { worker = enters s.worker },
      work s enter _ refl (act-enters s.worker (ltb→lt _ _ h)),
      (f, w, v),
      ground arith,
      ground arith,
    )
    | inr no_admitted ↦ elim (Bool-cases (ltb 0 s.worker.handling)) [
      | inl h ↦ inr (
        record s { worker = leaves s.worker },
        work s (leave false) _ refl (act-leaves s.worker (ltb→lt _ _ h)),
        (f, w, v),
        ground arith,
        ground arith,
      )
      | inr no_handling ↦ elim (Bool-cases (ltb 0 s.worker.leaving)) [
        | inl h ↦ inr (
          record s { worker = counts s.worker; idle = suc s.idle },
          answered s _ (act-counts s.worker (ltb→lt _ _ h) f),
          (refl, w, v),
          ground arith,
          ground arith,
        )
        | inr no_leaving ↦ elim (Bool-cases (ltb 0 s.worker.streaming)) [
          | inl h ↦ inr (
            record s { worker = ends_stream s.worker },
            work s finish_stream _ refl (act-ends_stream s.worker (ltb→lt _ _ h)),
            (f, w, v),
            ground arith,
            refl,
          )
          | inr no_streaming ↦ elim (Bool-cases (ltb 0 s.idle)) [
            | inl h ↦ inr (
              record s { idle = s.idle - 1 },
              close s (ltb→lt _ _ h),
              (f, w, v),
              ground arith,
              refl,
            )
            | inr no_idle ↦ elim (Bool-cases (ltb 0 s.acceptors)) [
              | inl h ↦ inr (
                record s { acceptors = s.acceptors - 1 },
                acceptor_left s (ltb→lt _ _ h) f,
                (f, w, v),
                ground arith,
                refl,
              )
              | inr no_acceptors ↦
                  stage_advances s s.stage refl i (f, w, v) (ground arith) (ground arith)
                    (ground arith)
            ]
          ]
        ]
      ]
    ]
  ]
