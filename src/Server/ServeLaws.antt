-- ===== src/Server/ServeLaws.antt =====
-- What holds of a worker while it serves and when it has returned (src/server.rs).
use mathlib.Core.Path.{subst}
use rustasgi.Base.{ℕ, suc, ◌+◌, ◌-◌, ◌≡◌, ◌||◌, true, false, List, some, arith, if◌then◌else◌}
use rustasgi.Server.Shutdown.{ShutdownKind, graceful, quick, is_quick}
use rustasgi.Server.Worker.{
  Action, arrive, enter, leave, count, finish_stream, stop, abandon, cancel_worker, Worker, fresh,
  act,
}
use rustasgi.Server.Serve.{
  Stage, serving, joining, draining, reporting, aborting, finished, Serve, start, connections,
  is_internal, behind_join, Step, accept, acceptor_left, request, work, answered, close, cancel,
  trigger, woken, joined, time_passes, drained, reported, returned, Reach, here, next,
}

-- What each stage implies of the rest.
abbrev pub Fits : Serve → Stage → Type 0
Fits s serving = Unit
Fits s (joining kind) = s.worker.shutting_down ≡ true
Fits s draining = (s.worker.shutting_down ≡ true) × (s.acceptors ≡ 0)
Fits s reporting = (s.worker.shutting_down ≡ true) × (s.acceptors ≡ 0)
Fits s (aborting r) = (s.worker.shutting_down ≡ true) × (s.acceptors ≡ 0)
Fits s (finished r) = (s.worker.shutting_down ≡ true) × (s.acceptors ≡ 0) × (connections s ≡ 0)

pub record IsSound (s : Serve) : Type 0 where
  pub guards : s.worker.in_flight ≡ s.worker.handling + s.worker.streaming
  pub fits : Fits s s.stage

pub start-IsSound : {L : Type 0} (listeners : List L) → IsSound (start listeners)
unfolding start fresh
start-IsSound listeners = record { guards = omega arith; fits = tt }

-- By the stage's form.
stage-Fits :
    (s t : Serve) (stage : Stage)
    → (s.worker.shutting_down ≡ true → t.worker.shutting_down ≡ true)
    → (s.acceptors ≡ 0 → t.acceptors ≡ 0)
    → (s.acceptors ≡ 0 → s.worker.shutting_down ≡ true → connections s ≡ 0 → connections t ≡ 0)
    → Fits s stage
    → Fits t stage
stage-Fits s t serving a b c h = tt
stage-Fits s t (joining kind) a b c h = a h
stage-Fits s t draining a b c h = (a h.0, b h.1)
stage-Fits s t reporting a b c h = (a h.0, b h.1)
stage-Fits s t (aborting r) a b c h = (a h.0, b h.1)
stage-Fits s t (finished r) a b c (h, z, n) = (a h, b z, c z h n)

-- The steps of requests keep the guards exact and the flag set.
act-Keeps :
    (max_requests : ℕ) (w w' : Worker) (a : Action)
    → act max_requests w a ≡ some w'
    → ((w.in_flight ≡ w.handling + w.streaming) → (w'.in_flight ≡ w'.handling + w'.streaming))
      × (w.shutting_down ≡ true → w'.shutting_down ≡ true)
unfolding act
act-Keeps max_requests w w' arrive e = (λ h. ground arith, λ h. ground arith)
act-Keeps max_requests w w' enter e = (λ h. ground arith, λ h. ground arith)
act-Keeps max_requests w w' (leave true) e = (λ h. ground arith, λ h. ground arith)
act-Keeps max_requests w w' (leave false) e = (λ h. ground arith, λ h. ground arith)
act-Keeps max_requests w w' count e = (λ h. ground arith, λ h. ground arith)
act-Keeps max_requests w w' finish_stream e = (λ h. ground arith, λ h. ground arith)
act-Keeps max_requests w w' abandon e = (λ h. ground arith, λ h. ground arith)
act-Keeps max_requests w w' stop e = (λ h. ground arith, λ h. ground arith)

-- A worker without requests begins none.
act_without_requests :
    (max_requests : ℕ) (w w' : Worker) (a : Action)
    → is_internal a ≡ true
    → act max_requests w a ≡ some w'
    → w.admitted + w.handling + w.leaving ≡ 0
    → w'.admitted + w'.handling + w'.leaving ≡ 0
unfolding act
act_without_requests max_requests w w' arrive i e h = cc
act_without_requests max_requests w w' enter i e h = ground arith
act_without_requests max_requests w w' (leave true) i e h = ground arith
act_without_requests max_requests w w' (leave false) i e h = ground arith
act_without_requests max_requests w w' count i e h = cc
act_without_requests max_requests w w' finish_stream i e h = ground arith
act_without_requests max_requests w w' abandon i e h = cc
act_without_requests max_requests w w' stop i e h = cc

joined-Fits :
    (s : Serve) (kind : ShutdownKind)
    → s.worker.shutting_down ≡ true
    → s.acceptors ≡ 0
    → Fits s (behind_join kind)
joined-Fits s graceful f z = (f, z)
joined-Fits s quick f z = (f, z)

pub Step-IsSound : {max_requests : ℕ} {s t : Serve} → Step max_requests s t → IsSound s → IsSound t
Step-IsSound (accept s h) i = record {
  guards = i.guards;
  fits =
      stage-Fits s (record s { idle = suc s.idle }) s.stage (λ f. f) (λ z. z)
        (λ z. absurd (omega arith)) i.fits;
}
Step-IsSound (acceptor_left s h f) i = record {
  guards = i.guards;
  fits =
      stage-Fits s (record s { acceptors = s.acceptors - 1 }) s.stage (λ f. f) (λ z. omega arith)
        (λ z f c. c) i.fits;
}
Step-IsSound (request s w h e) i =
    let (guards, flag) = act-Keeps _ s.worker w arrive e in
    record {
      guards = guards i.guards;
      fits =
          stage-Fits s
            (record s { worker = w; idle = if s.worker.shutting_down then s.idle else s.idle - 1 })
            s.stage flag (λ z. z) (λ z f c. absurd (omega arith)) i.fits;
    }
Step-IsSound (work s a w h e) i =
    let (guards, flag) = act-Keeps _ s.worker w a e in
    record {
      guards = guards i.guards;
      fits =
          stage-Fits s (record s { worker = w }) s.stage flag (λ z. z)
            (λ z f c. omega (arith, act_without_requests _ s.worker w a h e (omega arith))) i.fits;
    }
Step-IsSound (answered s w e) i =
    let (guards, flag) = act-Keeps _ s.worker w count e in
    record {
      guards = guards i.guards;
      fits =
          stage-Fits s (record s { worker = w; idle = suc s.idle }) s.stage flag (λ z. z)
            (λ z f c. absurd (unfold act in ground arith)) i.fits;
    }
Step-IsSound (close s h) i = record {
  guards = i.guards;
  fits =
      stage-Fits s (record s { idle = s.idle - 1 }) s.stage (λ f. f) (λ z. z) (λ z f c. omega arith)
        i.fits;
}
Step-IsSound (cancel s h) i = record {
  guards = let g = i.guards in omega arith;
  fits =
      stage-Fits s (record s { worker = cancel_worker s.worker }) s.stage (λ f. f) (λ z. z)
        (λ z f c. omega arith) i.fits;
}
Step-IsSound (trigger s kind w e) i =
    let (guards, flag) = act-Keeps _ s.worker w stop e in
    record {
      guards = guards i.guards;
      fits =
          stage-Fits s (record s { worker = w; quick_flag = is_quick kind || s.quick_flag }) s.stage
            flag (λ z. z) (λ z f c. unfold act in ground arith) i.fits;
    }
Step-IsSound (woken s h f) i = record { guards = i.guards; fits = f }
Step-IsSound (joined s kind h z) i = record {
  guards = i.guards;
  fits = joined-Fits s kind (subst (Fits s) h i.fits) z;
}
Step-IsSound (time_passes s h) i = record { guards = i.guards; fits = i.fits }
Step-IsSound (drained s h over) i = record { guards = i.guards; fits = subst (Fits s) h i.fits }
Step-IsSound (reported s h) i = record { guards = i.guards; fits = subst (Fits s) h i.fits }
Step-IsSound (returned s r h z) i = record {
  guards = i.guards;
  fits = let f : Fits s (aborting r) = subst (Fits s) h i.fits in (f.0, f.1, z);
}

pub Reach-IsSound :
    {max_requests : ℕ} {s t : Serve} → IsSound s → Reach max_requests s t → IsSound t
Reach-IsSound i here = i
Reach-IsSound i (next r st) = Step-IsSound st (Reach-IsSound i r)
