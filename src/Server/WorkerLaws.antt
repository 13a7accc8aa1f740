-- ===== src/Server/WorkerLaws.antt =====
-- The in-flight count is exact and the request quota is kept (src/server.rs, src/runtime.rs).
use mathlib.Core.Path.{subst}
use rustasgi.Base.{
  ℕ, ◌+◌, ◌≤◌, ◌<◌, ◌≡◌, true, false, List, [], ◌∷◌, some, arith, Option-cases, inl, inr,
}
use rustasgi.Server.Worker.{
  Action, arrive, enter, leave, count, finish_stream, stop, abandon, Worker, fresh, act, run,
}

-- The guards that are alive are those of the requests in a handler and of the streaming tasks, and
-- a worker that has answered its quota of requests is shutting down.
pub record IsExact (max_requests : ℕ) (w : Worker) : Type 0 where
  pub guards : w.in_flight ≡ w.handling + w.streaming
  pub quota : 0 < max_requests → max_requests ≤ w.completed → w.shutting_down ≡ true

fresh-IsExact : (max_requests : ℕ) → IsExact max_requests fresh
unfolding fresh
fresh-IsExact max_requests = ground arith

act-IsExact :
    (max_requests : ℕ) (w : Worker) (a : Action) {w' : Worker}
    → IsExact max_requests w
    → act max_requests w a ≡ some w'
    → IsExact max_requests w'
unfolding act
act-IsExact max_requests w arrive i e = ground arith
act-IsExact max_requests w enter i e = ground arith
act-IsExact max_requests w (leave true) i e = ground arith
act-IsExact max_requests w (leave false) i e = ground arith
act-IsExact max_requests w count i e = ground arith
act-IsExact max_requests w finish_stream i e = ground arith
act-IsExact max_requests w abandon i e = ground arith
act-IsExact max_requests w stop i e = ground arith

run-IsExact_from :
    (max_requests : ℕ) (w : Worker) (acts : List Action) {w' : Worker}
    → IsExact max_requests w
    → run max_requests w acts ≡ some w'
    → IsExact max_requests w'
unfolding run
run-IsExact_from max_requests w [] i e = subst (IsExact max_requests) (ground arith) i
run-IsExact_from max_requests w (a ∷ acts) i e = elim (Option-cases (act max_requests w a)) [
  | inl stuck ↦ absurd (ground arith)
  | inr (w1, moved) ↦
      run-IsExact_from max_requests w1 acts (act-IsExact max_requests w a i moved) (ground arith)
]

-- In every interleaving of the requests, those whose handler is dropped by a client that goes away or
-- by an abort included, the in-flight count is the number of requests inside a handler plus the number
-- of responses still streaming: 0 in flight means that neither is left. Once the quota of requests is
-- counted the worker is shutting down.
pub run-IsExact :
    (max_requests : ℕ) (acts : List Action) (w : Worker)
    → run max_requests fresh acts ≡ some w
    → IsExact max_requests w
run-IsExact max_requests acts w e =
    run-IsExact_from max_requests fresh acts (fresh-IsExact max_requests) e

-- The requests that may still need the application, and the responses still streaming.
abbrev pub work_left : Worker → ℕ
work_left w = w.admitted + w.handling + w.streaming

act-drains :
    (max_requests : ℕ) (w w' : Worker) (a : Action)
    → w.shutting_down ≡ true
    → act max_requests w a ≡ some w'
    → (w'.shutting_down ≡ true) × (w'.admitted ≤ w.admitted) × (work_left w' ≤ work_left w)
unfolding act
act-drains max_requests w w' arrive s e = (ground arith, ground arith, ground arith)
act-drains max_requests w w' enter s e = (ground arith, ground arith, ground arith)
act-drains max_requests w w' (leave true) s e = (ground arith, ground arith, ground arith)
act-drains max_requests w w' (leave false) s e = (ground arith, ground arith, ground arith)
act-drains max_requests w w' count s e = (ground arith, ground arith, ground arith)
act-drains max_requests w w' finish_stream s e = (ground arith, ground arith, ground arith)
act-drains max_requests w w' abandon s e = (ground arith, ground arith, ground arith)
act-drains max_requests w w' stop s e = (ground arith, ground arith, ground arith)

-- A shutdown is final and admits no further request: in every later interleaving the worker stays
-- shutting down, and the requests admitted before, together with the responses still streaming,
-- never become more.
run-drains :
    (max_requests : ℕ) (w w' : Worker) (acts : List Action)
    → w.shutting_down ≡ true
    → run max_requests w acts ≡ some w'
    → (w'.shutting_down ≡ true) × (w'.admitted ≤ w.admitted) × (work_left w' ≤ work_left w)
unfolding run
run-drains max_requests w w' [] s e = (ground arith, ground arith, ground arith)
run-drains max_requests w w' (a ∷ acts) s e = elim (Option-cases (act max_requests w a)) [
  | inl stuck ↦ absurd (ground arith)
  | inr (w1, moved) ↦
      ground (arith, act-drains max_requests w w1 a s moved, run-drains max_requests w1 w' acts)
]
