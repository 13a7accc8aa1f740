-- ===== src/Boot/LoopLaws.antt =====
-- The wait for the asyncio loop ends (src/runtime.rs).
use mathlib.Core.Path.{subst}
use rustasgi.Base.{
  ℕ, zero, suc, ◌+◌, ◌*◌, ◌≤◌, ◌<◌, ◌≡◌, refl, true, false, some, Result, ok, err, arith, ltb,
  Bool-cases, ◌==◌, ==_iff, ltb→lt, inl, inr,
}
use rustasgi.Boot.Loop.{LoopError, not_started, Look, wait_loop_running}

-- Each round sleeps at least 10 milliseconds.
abbrev pub Sleeps : (ℕ → Look) → Type 0
Sleeps looks = (i : ℕ) → (looks i).elapsed + 10 ≤ (looks (i + 1)).elapsed

-- How the wait may end: in a round that finds the loop running, or behind the deadline, in a round
-- that does not; and no earlier round found it running.
abbrev pub IsEnd : (ℕ → Look) → ℕ → Result LoopError ℕ → Type 0
IsEnd looks i (ok j) =
    (i ≤ j) × ((looks j).running ≡ true) × ((k : ℕ) → i ≤ k → k < j → (looks k).running ≡ false)
IsEnd looks i (err e) =
    (j : ℕ) × (i ≤ j)
    × (10000 < (looks j).elapsed)
    × ((k : ℕ) → i ≤ k → k < j + 1 → (looks k).running ≡ false)

-- The end of the later rounds is the end from here on, if this round finds nothing.
later-IsEnd :
    (looks : ℕ → Look) (i : ℕ) (r : Result LoopError ℕ)
    → (looks i).running ≡ false
    → IsEnd looks (i + 1) r
    → IsEnd looks i r
later-IsEnd looks i (ok j) h (le, hit, before) = (
  omega arith,
  hit,
  λ k a b. elim (Bool-cases (i == k)) [
    | inl e ↦ subst (λ k. (looks k).running ≡ false) ((==_iff i k).0 e) h
    | inr ne ↦ before k (ground arith) b
  ],
)
later-IsEnd looks i (err e) h (j, le, late, before) = (
  j,
  omega arith,
  late,
  λ k a b. elim (Bool-cases (i == k)) [
    | inl e ↦ subst (λ k. (looks k).running ≡ false) ((==_iff i k).0 e) h
    | inr ne ↦ before k (ground arith) b
  ],
)

-- A round that ends the wait, or finds nothing and is not late.
data Turn (looks : ℕ → Look) (i : ℕ) : Type 0 where
  up : (looks i).running ≡ true → Turn looks i
  late : (looks i).running ≡ false → ltb 10000 (looks i).elapsed ≡ true → Turn looks i
  early : (looks i).running ≡ false → ltb 10000 (looks i).elapsed ≡ false → Turn looks i

turn : (looks : ℕ → Look) (i : ℕ) → Turn looks i
turn looks i = elim (Bool-cases (looks i).running) [
  | inl r ↦ up r
  | inr d ↦ elim (Bool-cases (ltb 10000 (looks i).elapsed)) [ inl l ↦ late d l | inr e ↦ early d e ]
]

abbrev Ends : (ℕ → Look) → ℕ → ℕ → Type 0
Ends looks fuel i =
    (r : Result LoopError ℕ) × ((wait_loop_running fuel looks i ≡ some r) × IsEnd looks i r)

Turn-Ends :
    (looks : ℕ → Look) (fuel i : ℕ)
    → Turn looks i
    → (ltb 10000 (looks i).elapsed ≡ false → Ends looks fuel (i + 1))
    → Ends looks (suc fuel) i
unfolding wait_loop_running
Turn-Ends looks fuel i (up r) f =
    (ok i, (rw r refl, (omega arith, r, λ k a b. absurd (omega arith))))
Turn-Ends looks fuel i (late d l) f = (
  err not_started,
  (
    rw (d, l) refl,
    (i, omega arith, ltb→lt _ _ l, λ k a b. subst (λ k. (looks k).running ≡ false) (omega arith) d),
  ),
)
Turn-Ends looks fuel i (early d e) f =
    let (r, (h, ends)) = f e in (r, (rw (d, e, h) refl, later-IsEnd looks i r d ends))

wait_from :
    (fuel : ℕ) (looks : ℕ → Look) (i : ℕ)
    → Sleeps looks
    → 10001 ≤ (looks i).elapsed + 10 * fuel
    → Ends looks (suc fuel) i
wait_from zero looks i s enough = Turn-Ends looks zero i (turn looks i) (λ e. absurd (ground arith))
wait_from (suc fuel) looks i s enough =
    Turn-Ends looks (suc fuel) i (turn looks i)
      (λ e. wait_from fuel looks (i + 1) s (omega (arith, s i)))

-- The wait for the loop ends after at most 1002 rounds, since each sleeps 10 milliseconds: in the
-- first round that finds the loop running, or with an error behind the deadline of 10 seconds, when
-- no round has found it running.
pub wait_loop_running-ends :
    (looks : ℕ → Look)
    → Sleeps looks
    → (r : Result LoopError ℕ) × ((wait_loop_running 1002 looks 0 ≡ some r) × IsEnd looks 0 r)
wait_loop_running-ends looks s = wait_from 1001 looks 0 s (omega arith)
