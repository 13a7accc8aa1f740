-- ===== src/Server/DrainLaws.antt =====
-- The drain ends, and why it ended (src/server.rs, `serve`).
use rustasgi.Base.{
  ℕ, zero, suc, ◌+◌, ◌*◌, ◌/◌, ◌≤◌, ◌≡◌, ◌&&◌, [], ◌∷◌, some, none, if◌then◌else◌, ltb, arith,
  Bool-cases, inl, inr, ◌⊎◌,
}
use rustasgi.Server.Shutdown.{graceful, quick}
use rustasgi.Server.Drain.{
  Joins, Look, drain_loop, abort_connections, serve_done, report, serve_end,
}

-- Each round sleeps 50 milliseconds.
abbrev pub Sleeps : (ℕ → Look) → Type 0
Sleeps looks = (i : ℕ) → 50 * i ≤ (looks i).elapsed

-- Nothing is in flight, or the time is over.
abbrev pub IsOver : Look → ℕ → Type 0
IsOver look waited = (look.in_flight ≡ 0) ⊎ (waited ≤ look.elapsed)

drain_loop-ends_from :
    (fuel : ℕ) (looks : ℕ → Look) (waited i : ℕ)
    → Sleeps looks
    → waited ≤ 50 * (i + fuel)
    → (j : ℕ) × (drain_loop (suc fuel) looks waited i ≡ some j) × IsOver (looks j) waited
unfolding drain_loop
drain_loop-ends_from zero looks waited i sleeps enough =
    let here = sleeps i in (i, ground arith, ground arith)
drain_loop-ends_from (suc fuel) looks waited i sleeps enough =
    elim (Bool-cases (ltb 0 (looks i).in_flight && ltb (looks i).elapsed waited)) [
      | inl more ↦ rw more (drain_loop-ends_from fuel looks waited (i + 1) sleeps (omega arith))
      | inr over ↦ (i, rw over, ground arith)
    ]

-- Where each round sleeps 50 milliseconds, the drain of `waited` milliseconds ends within `waited / 50 + 2` rounds, and in the round in which
-- it ends nothing is in flight or the time is over.
pub drain_loop-ends :
    (looks : ℕ → Look) (waited : ℕ)
    → Sleeps looks
    → (j : ℕ) × (drain_loop (suc (waited / 50 + 1)) looks waited 0 ≡ some j)
      × IsOver (looks j) waited
drain_loop-ends looks waited sleeps =
    drain_loop-ends_from (waited / 50 + 1) looks waited 0 sleeps (omega arith)

-- Once woken, `serve` returns after either kind of shutdown if the accept loops leave and the aborted
-- connections end, where each round of the drain sleeps 50 milliseconds: after a graceful shutdown the
-- drain is over in at most `waited / 50 + 2` rounds, in a round in which nothing is in flight or the
-- time is over, and one report follows; after a quick one there is neither. The last that it does is
-- to abort the connections and to tell the signal watcher. If the accept loops or the connections stay,
-- it does not return.
pub serve_end-returns :
    (joins : Joins) (looks : ℕ → Look) (after : ℕ → ℕ) (waited : ℕ)
    → Sleeps looks
    → let last = abort_connections ∷ serve_done ∷ [] in
      let fuel = suc (waited / 50 + 1) in
      ((j : ℕ) × IsOver (looks j) waited
        × (serve_end joins fuel graceful looks after waited ≡ (
            if joins.acceptors && joins.connections then some (report (after j) ∷ last) else none)))
      × (serve_end joins fuel quick looks after waited
          ≡ (if joins.acceptors && joins.connections then some last else none))
unfolding serve_end
serve_end-returns joins looks after waited sleeps =
    let (j, ended, over) = drain_loop-ends looks waited sleeps in
    ((j, over, rw ended (ground arith)), ground arith)
