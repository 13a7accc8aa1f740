-- ===== src/Metrics.antt =====
-- src/metrics.rs: the counters and phase timers, and the numbers that the report prints.
pub mod Laws
use rustasgi.Base.{
  ℕ, zero, suc, ◌+◌, ◌++◌, ◌*◌, ◌/◌, ◌%◌, ◌^◌, max, Bool, true, false, ◌||◌, List, [], ◌∷◌, Option,
  none, some, if◌then◌else◌, ◌==◌, ltb,
}
use rustasgi.Base.Text.{bytes_eq, codes}

-- The statics: `ENABLED` as it is read, and the atomics by their index.
pub record Metrics : Type 0 where
  pub enabled : Bool
  pub phase_ns : ℕ → ℕ
  pub phase_n : ℕ → ℕ
  pub counters : ℕ → ℕ

abbrev pub n_phases : ℕ
n_phases = 6

abbrev pub p_attach_wait : ℕ
p_attach_wait = 4

abbrev pub p_attach_hold : ℕ
p_attach_hold = 5

abbrev pub n_counters : ℕ
n_counters = 18

abbrev pub c_requests : ℕ
c_requests = 0

abbrev pub c_send_fast : ℕ
c_send_fast = 3

abbrev pub c_send_full : ℕ
c_send_full = 4

-- `enabled()`, from what `std::env::var("RUSTWASGI_PROFILE")` gives.
unfoldable pub enabled_by : Option (List ℕ) → Bool
enabled_by none = false
enabled_by (some v) = bytes_eq v (codes "1")

-- The statics when the process starts.
abbrev pub initial : Option (List ℕ) → Metrics
initial profile = record {
  enabled = enabled_by profile;
  phase_ns = λ i. 0;
  phase_n = λ i. 0;
  counters = λ i. 0;
}

-- `ATOMICS[i].fetch_add(n, Ordering::Relaxed)` of an `AtomicU64`.
unfoldable pub fetch_add : (ℕ → ℕ) → ℕ → ℕ → ℕ → ℕ
fetch_add atomics i n j = if i == j then (atomics j + n) % 2 ^ 64 else atomics j

unfoldable pub inc : ℕ → Metrics → Metrics
inc counter m = if m.enabled then record m { counters = fetch_add m.counters counter 1 } else m

-- One timing of a phase: what both the timers do once they are enabled.
unfoldable pub record_phase : ℕ → ℕ → Metrics → Metrics
record_phase i nanos m = record m {
  phase_ns = fetch_add m.phase_ns i (nanos % 2 ^ 64);
  phase_n = fetch_add m.phase_n i 1;
}

unfoldable pub phase : ℕ → ℕ → Metrics → Metrics
unfolding record_phase
phase i elapsed m = if m.enabled then record_phase i elapsed m else m

-- `attach_measured`, from the nanoseconds until the closure starts and until it ends.
unfoldable pub attach_measured : ℕ → ℕ → Metrics → Metrics
unfolding record_phase
attach_measured wait hold m =
    if m.enabled then record_phase p_attach_hold hold (record_phase p_attach_wait wait m) else m

-- A line of the report. The floating-point quotients are the pair of their operands: a mean is
-- nanoseconds over a number of timings, a rate is a count over the requests.
pub data Line : Type 0 where
  mean : (i n ns : ℕ) → Line
  count : (i n : ℕ) → Line
  rate : (i n requests : ℕ) → Line

-- `for i in 0..n`, from `i` on with `n` to go.
phase_lines : Metrics → ℕ → ℕ → List Line
phase_lines m i zero = []
phase_lines m i (suc n) = mean i (m.phase_n i) (m.phase_ns i) ∷ phase_lines m (i + 1) n

counter_lines : Metrics → ℕ → ℕ → List Line
counter_lines m i zero = []
counter_lines m i (suc n) =
    (if i == c_requests
      then count i (m.counters i)
      else rate i (m.counters i) (max (m.counters c_requests) 1))
    ∷ counter_lines m (i + 1) n

-- `none` is the empty string.
unfoldable pub report : Metrics → Option (List Line)
unfolding phase_lines counter_lines
report m =
    if m.enabled then some (phase_lines m 0 n_phases ++ counter_lines m 0 n_counters) else none
