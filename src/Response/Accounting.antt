-- ===== src/Response/Accounting.antt =====
-- How the two loops and their ends count the reports, log lines and reapers (src/server.rs, `handle_http`).
use rustasgi.Base.{
  ℕ, ◌+◌, ◌≤◌, ◌≡◌, refl, sym, ap, ◌∙◌, Bool, false, List, [], ◌∷◌, Option, none, some, inl, inr,
  if◌then◌else◌, Option-cases, arith,
}
use rustasgi.Response.{
  Ready, Effect, Turn, again, done, outcome, state_of, drain_reaper, spawn_reaper, count_by,
  count_by-append, is_report, is_log, is_reaper, is_drop,
}
use rustasgi.Response.Start.{Waiting, Answer, started, refused, start_turn, await_start}
use rustasgi.Response.Stream.{Pump, pump_turn, pump, finish}
use rustasgi.Response.StartLaws.{await_start-again, await_start-stop}
use rustasgi.Response.StreamLaws.{pump-again, pump-done}
use rustasgi.Response.Respond.{reap}

-- What the two loops keep: the application's end is reported at most once, and only if it is
-- marked as logged; nothing else is done yet.
pub record IsOpen (app_done app_logged : Bool) (es : List Effect) : Type 0 where
  pub same : app_logged ≡ app_done
  pub reports : count_by is_report es ≤ (if app_logged then 1 else 0)
  pub logs : count_by is_log es ≡ 0
  pub reapers : count_by is_reaper es ≡ 0
  pub drops : count_by is_drop es ≡ 0

start_turn-IsOpen :
    (s : Waiting) (r : Ready)
    → outcome (start_turn s r) ≡ none
    → IsOpen s.app_done s.app_logged s.effects
    → let t = state_of (start_turn s r) in IsOpen t.app_done t.app_logged t.effects
unfolding start_turn
start_turn-IsOpen s r h o = grind (arith, count_by-append)

pump_turn-IsOpen :
    (s : Pump) (r : Ready)
    → IsOpen s.app_done s.app_logged s.effects
    → let t = state_of (pump_turn s r) in IsOpen t.app_done t.app_logged t.effects
unfolding pump_turn
pump_turn-IsOpen s r o = grind (arith, count_by-append)

-- What the refusing turn leaves.
pub record IsRefused (app_logged : Bool) (es : List Effect) : Type 0 where
  pub reports : count_by is_report es ≤ (if app_logged then 1 else 0)
  pub logs : count_by is_log es ≤ 1
  pub reapers : count_by is_reaper es ≡ 1
  pub drops : count_by is_drop es ≡ 0

start_turn-IsRefused :
    (s : Waiting) (r : Ready)
    → outcome (start_turn s r) ≡ some refused
    → IsOpen s.app_done s.app_logged s.effects
    → let t = state_of (start_turn s r) in IsRefused t.app_logged t.effects
unfolding start_turn
start_turn-IsRefused s r h o = grind (arith, count_by-append)

start_turn-started :
    (s : Waiting) (r : Ready) {status : ℕ} {headers : List (List ℕ × List ℕ)}
    → outcome (start_turn s r) ≡ some (started status headers)
    → state_of (start_turn s r) ≡ s
unfolding start_turn
start_turn-started s r h = ground arith

-- What holds of the first loop's end, by its answer.
abbrev pub Ends : Turn Waiting Answer → Type 0
Ends (again s) = Unit
Ends (done s refused) = IsRefused s.app_logged s.effects
Ends (done s (started status headers)) = IsOpen s.app_done s.app_logged s.effects

start_turn-Ends :
    (s : Waiting) (r : Ready) (t : Turn Waiting Answer)
    → start_turn s r ≡ t
    → IsOpen s.app_done s.app_logged s.effects
    → Ends t
start_turn-Ends s r (again s') e o = tt
start_turn-Ends s r (done s' refused) e o =
    rw (ap state_of e) at (start_turn-IsRefused s r (ap outcome e) o)
start_turn-Ends s r (done s' (started status headers)) e o =
    let same = start_turn-started s r (ap outcome e) in rw (sym same ∙ ap state_of e) at o

pub await_start-Ends :
    (s : Waiting) (rs : List Ready)
    → IsOpen s.app_done s.app_logged s.effects
    → Ends (await_start s rs)
await_start-Ends s [] o = unfold await_start in tt
await_start-Ends s (r ∷ rs) o = elim (Option-cases (outcome (start_turn s r))) [
  | inl more ↦
      rw (await_start-again s r rs more)
        (await_start-Ends (state_of (start_turn s r)) rs (start_turn-IsOpen s r more o))
  | inr (a, over) ↦ rw (await_start-stop s r rs over) (start_turn-Ends s r (start_turn s r) refl o)
]

pub pump-IsOpen :
    (s : Pump) (rs : List Ready)
    → IsOpen s.app_done s.app_logged s.effects
    → let t = state_of (pump s rs) in IsOpen t.app_done t.app_logged t.effects
pump-IsOpen s [] o = unfold pump in o
pump-IsOpen s (r ∷ rs) o = elim (Option-cases (outcome (pump_turn s r))) [
  | inl more ↦
      rw (pump-again s r rs more)
        (pump-IsOpen (state_of (pump_turn s r)) rs (pump_turn-IsOpen s r o))
  | inr (u, over) ↦ rw (pump-done s r rs over) (pump_turn-IsOpen s r o)
]

-- What the end of the task leaves.
pub record IsFinished (app_logged : Bool) (es : List Effect) : Type 0 where
  pub reports : count_by is_report es ≤ (if app_logged then 1 else 0)
  pub logs : count_by is_log es ≡ 1
  pub drops : count_by is_drop es ≡ 1
  pub reapers : count_by is_reaper es ≡ (if app_logged then 0 else 1)

pub finish-IsFinished :
    (status : ℕ) (s : Pump) (poll : Option Bool)
    → IsOpen s.app_done s.app_logged s.effects
    → let t = finish status s poll in IsFinished t.app_logged t.effects
unfolding finish
finish-IsFinished status s poll o = grind (arith, count_by-append)

pub drain_reaper-reports :
    (logged : Bool) (reaped : Option Bool)
    → (count_by is_report (drain_reaper logged reaped) ≤ (if logged then 0 else 1))
      × (count_by is_log (drain_reaper logged reaped) ≡ 0)
      × (count_by is_drop (drain_reaper logged reaped) ≡ 0)
unfolding drain_reaper
drain_reaper-reports logged reaped = (ground arith, ground arith, ground arith)

pub reap-reports :
    (logged : Bool) (reaped : Option Bool) (es : List Effect)
    → count_by is_report (reap logged reaped es)
      ≤ count_by is_report es + (if logged then 0 else count_by is_reaper es)
unfolding reap
reap-reports logged reaped [] = omega arith
reap-reports logged reaped (spawn_reaper false ∷ es) = ground (
  arith,
  reap-reports logged reaped es,
  drain_reaper-reports logged reaped,
  count_by-append is_report (reap logged reaped es) (drain_reaper logged reaped),
)
reap-reports logged reaped (e ∷ es) = ground (arith, reap-reports logged reaped es)

module _ (w : Effect → ℕ) (logged : Bool) (reaped : Option Bool) where
  pub reap-counts :
      count_by w (drain_reaper logged reaped) ≡ 0
      → (es : List Effect) → count_by w (reap logged reaped es) ≡ count_by w es
  unfolding reap
  reap-counts h [] = refl
  reap-counts h (spawn_reaper false ∷ es) = ground (
    arith,
    reap-counts h es,
    count_by-append w (reap logged reaped es) (drain_reaper logged reaped),
  )
  reap-counts h (e ∷ es) = omega (arith, reap-counts h es)
