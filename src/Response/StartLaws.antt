-- ===== src/Response/StartLaws.antt =====
-- The wait for the start of the response (src/server.rs, `handle_http`) has one answer.
use rustasgi.Response.{report}
use rustasgi.Base.{
  ◌++◌, ◌≡◌, refl, sym, ap, ◌∙◌, ◌≢◌, inl, inr, Bool, true, false, ◌||◌, List, [], ◌∷◌, Option,
  none, some, any, All, Bool-cases, Option-cases, arith,
}
use rustasgi.Message.{ResponseEvent, start, body}
use rustasgi.Response.{Ready, Effect, log_access, spawn_reaper, outcome, state_of, again_of_outcome}
use rustasgi.Response.Start.{Waiting, Answer, started, refused, start_turn, await_start}

-- The first thing that the application's channel yields.
abbrev pub first_event : List Ready → Option (Option ResponseEvent)
first_event [] = none
first_event (r ∷ rs) = elim r.recv [ some e ↦ some e | none ↦ first_event rs ]

-- A start event is the answer; a body event or a closed channel is a 500.
abbrev pub answer_of : Option (Option ResponseEvent) → Option Answer
answer_of none = none
answer_of (some (some (start status headers))) = some (started status headers)
answer_of (some (some (body _ _))) = some refused
answer_of (some none) = some refused

start_turn-some :
    (s : Waiting) (r : Ready) (e : Option ResponseEvent)
    → r.recv ≡ some e
    → outcome (start_turn s r) ≡ answer_of (some e)
unfolding start_turn
start_turn-some s r none h = ground arith
start_turn-some s r (some (start status headers)) h = ground arith
start_turn-some s r (some (body content more)) h = ground arith

start_turn-none :
    (s : Waiting) (r : Ready) → r.recv ≡ none → r.deadline ≡ false → outcome (start_turn s r) ≡ none
unfolding start_turn
start_turn-none s r h d = ground arith

-- One turn and the rest of the loop, seen from the outcome of the turn.
pub await_start-again :
    (s : Waiting) (r : Ready) (rs : List Ready)
    → outcome (start_turn s r) ≡ none
    → await_start s (r ∷ rs) ≡ await_start (state_of (start_turn s r)) rs
unfolding await_start
await_start-again s r rs h = rw (again_of_outcome (start_turn s r) h, await_start)

pub await_start-stop :
    (s : Waiting) (r : Ready) (rs : List Ready) {a : Answer}
    → outcome (start_turn s r) ≡ some a
    → await_start s (r ∷ rs) ≡ start_turn s r
unfolding await_start
await_start-stop s r rs h = ground arith

await_start-done :
    (s : Waiting) (r : Ready) (rs : List Ready) {a : Answer}
    → outcome (start_turn s r) ≡ some a
    → outcome (await_start s (r ∷ rs)) ≡ some a
unfolding await_start
await_start-done s r rs h = ground arith

await_start-event :
    (s : Waiting) (r : Ready) (rs : List Ready) (e : Option ResponseEvent)
    → r.recv ≡ some e
    → outcome (await_start s (r ∷ rs)) ≡ answer_of (some e)
await_start-event s r rs none h = await_start-done s r rs (start_turn-some s r none h)
await_start-event s r rs (some (start status headers)) h =
    await_start-done s r rs (start_turn-some s r (some (start status headers)) h)
await_start-event s r rs (some (body content more)) h =
    await_start-done s r rs (start_turn-some s r (some (body content more)) h)

first_event-none :
    (r : Ready) (rs : List Ready) → r.recv ≡ none → first_event (r ∷ rs) ≡ first_event rs
first_event-none r rs h = ground arith

first_event-some :
    (r : Ready) (rs : List Ready) (e : Option ResponseEvent)
    → r.recv ≡ some e
    → first_event (r ∷ rs) ≡ some e
first_event-some r rs e h = ground arith

-- As long as the deadline does not pass, the request is answered exactly when the application's
-- channel yields something, and the first thing that it yields decides: a start event is the
-- answer, a body event or the end of the channel is a 500. Neither the application's return nor
-- the feeding of the request body changes that.
pub await_start-first :
    (s : Waiting) (rs : List Ready)
    → All (λ r. r.deadline ≡ false) rs
    → outcome (await_start s rs) ≡ answer_of (first_event rs)
await_start-first s [] h = unfold await_start in refl
await_start-first s (r ∷ rs) (d, h) = elim (Option-cases r.recv) [
  | inl pending ↦
      ap outcome (await_start-again s r rs (start_turn-none s r pending d))
      ∙ await_start-first (state_of (start_turn s r)) rs h
      ∙ ap answer_of (sym (first_event-none r rs pending))
  | inr (e, event) ↦
      await_start-event s r rs e event ∙ ap answer_of (sym (first_event-some r rs e event))
]

-- The deadline has passed and nothing else is ready.
abbrev pub is_overdue : Ready → Bool
is_overdue r = elim r.recv [
  | some _ ↦ false
  | none ↦ elim r.app [ some _ ↦ false | none ↦ elim r.fed [ some _ ↦ false | none ↦ r.deadline ] ]
]

start_turn-overdue :
    (s : Waiting) (r : Ready) → is_overdue r ≡ true → outcome (start_turn s r) ≡ some refused
unfolding start_turn
start_turn-overdue s r h = ground arith

overdue_later :
    (s : Waiting) (r : Ready) (rs : List Ready)
    → outcome (start_turn s r) ≡ none
    → any is_overdue (r ∷ rs) ≡ true
    → any is_overdue rs ≡ true
overdue_later s r rs more h = elim (Bool-cases (is_overdue r)) [
  | inl now ↦ absurd (cc (more, start_turn-overdue s r now))
  | inr later ↦ ground arith
]

-- The wait ends, whatever happens before, by the first turn in which the deadline has passed and
-- no other source is ready.
pub await_start-overdue :
    (s : Waiting) (rs : List Ready) → any is_overdue rs ≡ true → outcome (await_start s rs) ≢ none
await_start-overdue s [] h = cc
await_start-overdue s (r ∷ rs) h = elim (Option-cases (outcome (start_turn s r))) [
  | inl more ↦
      rw (await_start-again s r rs more)
        (await_start-overdue (state_of (start_turn s r)) rs (overdue_later s r rs more h))
  | inr (a, over) ↦ λ e. cc (await_start-done s r rs over)
]

-- Whether a reaper gets a future that has completed.
abbrev pub reaps_completed : List Effect → Bool
reaps_completed [] = false
reaps_completed (spawn_reaper c ∷ es) = c || reaps_completed es
reaps_completed (_ ∷ es) = reaps_completed es

reaps_completed-append :
    (es : List Effect) → reaps_completed (es ++ log_access 500 0 ∷ spawn_reaper true ∷ []) ≡ true
reaps_completed-append [] = refl
reaps_completed-append (spawn_reaper true ∷ es) = refl
reaps_completed-append (spawn_reaper false ∷ es) = reaps_completed-append es
reaps_completed-append (e ∷ es) = reaps_completed-append es

-- An application whose end is seen before its channel closes: the second turn answers 500 and
-- hands the future that has completed to a reaper, which polls it again.
pub await_start-reaps_completed :
    (s : Waiting) (r t : Ready) (rs : List Ready) (raised : Bool)
    → s.app_done ≡ false
    → r.recv ≡ none
    → r.app ≡ some raised
    → t.recv ≡ some none
    → (outcome (await_start s (r ∷ t ∷ rs)) ≡ some refused)
      × (reaps_completed (state_of (await_start s (r ∷ t ∷ rs))).effects ≡ true)
unfolding await_start start_turn
await_start-reaps_completed s r t rs raised fresh pending ended closed =
    (ground arith, ground (arith, reaps_completed-append (s.effects ++ report s.app_logged raised)))
