-- ===== src/Metrics/Laws.antt =====
-- What the atomics hold after any calls (src/metrics.rs).
use rustasgi.Base.{
  ℕ, ◌+◌, ◌%◌, ◌^◌, ◌<◌, ◌≡◌, ◌⊎◌, refl, ◌∙◌, true, false, List, [], ◌∷◌, Option, if◌then◌else◌,
  ◌==◌, arith, Bool-cases, inl, inr,
}
use rustasgi.Metrics.{
  Metrics, initial, enabled_by, fetch_add, inc, phase, record_phase, attach_measured, p_attach_wait,
  p_attach_hold,
}

-- A call of the instrumentation, with the nanoseconds that it measures.
pub data Call : Type 0 where
  inc_call : (counter : ℕ) → Call
  phase_call : (i elapsed : ℕ) → Call
  attach_call : (wait hold : ℕ) → Call

unfoldable pub perform : Call → Metrics → Metrics
unfolding inc phase attach_measured record_phase
perform (inc_call c) = inc c
perform (phase_call i elapsed) = phase i elapsed
perform (attach_call wait hold) = attach_measured wait hold

unfoldable pub perform_all : List Call → Metrics → Metrics
unfolding perform
perform_all [] m = m
perform_all (c ∷ cs) m = perform_all cs (perform c m)

abbrev if_at : ℕ → ℕ → ℕ → ℕ
if_at i j n = if i == j then n else 0

-- What one call adds to a counter, to the timings of a phase, and to its nanoseconds.
abbrev adds_count : ℕ → Call → ℕ
adds_count j (inc_call c) = if_at c j 1
adds_count j _ = 0

abbrev adds_timing : ℕ → Call → ℕ
adds_timing j (phase_call i elapsed) = if_at i j 1
adds_timing j (attach_call wait hold) = if_at p_attach_wait j 1 + if_at p_attach_hold j 1
adds_timing j (inc_call c) = 0

abbrev adds_nanos : ℕ → Call → ℕ
adds_nanos j (phase_call i elapsed) = if_at i j elapsed
adds_nanos j (attach_call wait hold) = if_at p_attach_wait j wait + if_at p_attach_hold j hold
adds_nanos j (inc_call c) = 0

abbrev pub total : (Call → ℕ) → List Call → ℕ
total f [] = 0
total f (c ∷ cs) = f c + total f cs

fetch_add-value :
    (a : ℕ → ℕ) (i n j : ℕ) → a j < 2 ^ 64 → fetch_add a i n j ≡ (a j + if_at i j n) % 2 ^ 64
unfolding fetch_add
fetch_add-value a i n j h = ground arith

-- Every atomic holds a 64-bit number, as it does when the process starts.
abbrev Fits : ℕ → Metrics → Type 0
Fits j m = (m.counters j < 2 ^ 64) × (m.phase_n j < 2 ^ 64) × (m.phase_ns j < 2 ^ 64)

-- The atomics of index `j` have grown by these numbers.
abbrev pub Grows : ℕ → Metrics → Metrics → ℕ → ℕ → ℕ → Type 0
Grows j m m1 count timings nanos =
    (m1.counters j ≡ (m.counters j + count) % 2 ^ 64)
    × (m1.phase_n j ≡ (m.phase_n j + timings) % 2 ^ 64)
    × (m1.phase_ns j ≡ (m.phase_ns j + nanos) % 2 ^ 64)

perform-Grows :
    (j : ℕ) (c : Call) (m : Metrics)
    → m.enabled ≡ true
    → Fits j m
    → Grows j m (perform c m) (adds_count j c) (adds_timing j c) (adds_nanos j c)
unfolding perform inc phase attach_measured record_phase fetch_add
perform-Grows j (inc_call c) m e f = ground arith
perform-Grows j (phase_call i elapsed) m e f = ground arith
perform-Grows j (attach_call wait hold) m e f = ground arith

perform-enabled : (c : Call) (m : Metrics) → (perform c m).enabled ≡ m.enabled
unfolding perform inc phase attach_measured record_phase
perform-enabled (inc_call c) m = ground arith
perform-enabled (phase_call i elapsed) m = ground arith
perform-enabled (attach_call wait hold) m = ground arith

perform_off : (c : Call) (m : Metrics) → m.enabled ≡ false → perform c m ≡ m
unfolding perform inc phase attach_measured
perform_off (inc_call c) m e = ground arith
perform_off (phase_call i elapsed) m e = ground arith
perform_off (attach_call wait hold) m e = ground arith

perform_all_off : (cs : List Call) (m : Metrics) → m.enabled ≡ false → perform_all cs m ≡ m
unfolding perform_all
perform_all_off [] m e = refl
perform_all_off (c ∷ cs) m e = rw (perform_off c m e) (perform_all_off cs m e)

perform_all-Grows :
    (j : ℕ) (cs : List Call) (m : Metrics)
    → m.enabled ≡ true
    → Fits j m
    → Grows j m
        (perform_all cs m)
        (total (adds_count j) cs)
        (total (adds_timing j) cs)
        (total (adds_nanos j) cs)
unfolding perform_all
perform_all-Grows j [] m e f = ground arith
perform_all-Grows j (c ∷ cs) m e f =
    let g = perform-Grows j c m e f in
    let h =
      perform_all-Grows j cs (perform c m) (perform-enabled c m ∙ e)
        (omega (arith, g.0), omega (arith, g.1), omega (arith, g.2)) in
    (omega (arith, g.0, h.0), omega (arith, g.1, h.1), omega (arith, g.2, h.2))

-- What the report reads at index `j` after any calls of a process that profiles: how often the
-- counter was incremented, how often the phase was timed, and the sum of its nanoseconds, each as a
-- 64-bit number; a process that does not profile keeps its atomics at 0.
perform_all_totals :
    (profile : Option (List ℕ)) (cs : List Call) (j : ℕ)
    → let m : Metrics = perform_all cs (initial profile) in
      ((enabled_by profile ≡ true)
        × Grows j
            (initial profile)
            m
            (total (adds_count j) cs)
            (total (adds_timing j) cs)
            (total (adds_nanos j) cs))
      ⊎ ((enabled_by profile ≡ false) × (m ≡ initial profile))
perform_all_totals profile cs j = elim (Bool-cases (enabled_by profile)) [
  | inl on ↦
      inl (on, perform_all-Grows j cs (initial profile) on (omega arith, omega arith, omega arith))
  | inr off ↦ inr (off, perform_all_off cs (initial profile) off)
]
