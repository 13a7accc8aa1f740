-- ===== src/Server/OverLaws.antt =====
-- What is left when the drain of `serve` ends, and when `serve` has returned (src/server.rs).
use mathlib.Core.Path.{subst}
use rustasgi.Base.{ℕ, ◌≡◌, ◌⊎◌, inl, inr, true, false, List, Option, arith}
use rustasgi.Server.Serve.{
  draining, reporting, finished, Serve, start, connections, Step, accept, acceptor_left, request,
  work, answered, close, cancel, trigger, woken, joined, time_passes, drained, reported, returned,
  Reach,
}
use rustasgi.Server.ServeLaws.{Fits, start-IsSound, Reach-IsSound}

-- Once `serve` has returned, and ever after, the shutdown flag is set, every accept loop has left,
-- there is no connection and no request inside a handler, and what is still counted in flight are
-- the tasks that stream a response, which `serve` does not wait for.
pub serve-IsOver :
    {L : Type 0} (listeners : List L) (max_requests : ℕ) (s : Serve) (remaining : Option ℕ)
    → Reach max_requests (start listeners) s
    → s.stage ≡ finished remaining
    → (s.worker.shutting_down ≡ true)
      × (s.acceptors ≡ 0)
      × (connections s ≡ 0)
      × (s.worker.in_flight ≡ s.worker.streaming)
serve-IsOver listeners max_requests s remaining r e =
    let i = Reach-IsSound (start-IsSound listeners) r in
    let (flag, loops, none_left) : Fits s (finished remaining) = subst (Fits s) e i.fits in
    (flag, loops, none_left, omega (arith, i.guards))

-- The drain's loop is left with nothing in flight, or when its time is over.
left_drain :
    {max_requests : ℕ} {s t : Serve}
    → Step max_requests s t
    → s.stage ≡ draining
    → t.stage ≡ reporting
    → (s.worker.in_flight ≡ 0) ⊎ (s.timed_out ≡ true)
left_drain (accept s h) d r = cc
left_drain (acceptor_left s h f) d r = cc
left_drain (request s w h e) d r = cc
left_drain (work s a w h e) d r = cc
left_drain (answered s w e) d r = cc
left_drain (close s h) d r = cc
left_drain (cancel s h) d r = cc
left_drain (trigger s kind w e) d r = cc
left_drain (woken s h f) d r = cc
left_drain (joined s kind h z) d r = cc
left_drain (time_passes s h) d r = cc
left_drain (drained s h over) d r = over
left_drain (reported s h) d r = cc
left_drain (returned s remaining h z) d r = cc

-- A graceful shutdown that ends its drain in time does so when no accept loop is left, no request is
-- inside a handler and no response is streaming.
pub drain_complete :
    {L : Type 0} (listeners : List L) (max_requests : ℕ) (s t : Serve)
    → Reach max_requests (start listeners) s
    → Step max_requests s t
    → s.stage ≡ draining
    → t.stage ≡ reporting
    → s.timed_out ≡ false
    → (s.acceptors ≡ 0) × (s.worker.handling ≡ 0) × (s.worker.streaming ≡ 0)
drain_complete listeners max_requests s t r st d e in_time =
    let i = Reach-IsSound (start-IsSound listeners) r in
    let fits : Fits s draining = subst (Fits s) d i.fits in
    elim (left_drain st d e) [
      | inl empty ↦ (fits.1, omega (arith, i.guards), omega (arith, i.guards))
      | inr late ↦ absurd cc
    ]
