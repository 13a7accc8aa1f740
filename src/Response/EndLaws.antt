-- ===== src/Response/EndLaws.antt =====
-- Every request comes to its end (src/server.rs, `handle_http`).
use rustasgi.Base.{
  ℕ, ◌≡◌, ◌≢◌, refl, Bool, true, List, [], ◌∷◌, none, some, any, Bool-cases, Option-cases, inl, inr,
  arith,
}
use rustasgi.Response.{Ready, Turn, again, done, outcome, state_of}
use rustasgi.Response.Start.{Waiting, Answer, started, refused, waiting, await_start}
use rustasgi.Response.Stream.{Pump, Step, pump_turn, pump}
use rustasgi.Response.StartLaws.{is_overdue, await_start-overdue}
use rustasgi.Response.StreamLaws.{pump-again, pump-done}
use rustasgi.Response.Respond.{Script, enter, deliver, conclude, respond}

pump_turn-overdue : (s : Pump) (r : Ready) → is_overdue r ≡ true → outcome (pump_turn s r) ≡ some tt
unfolding pump_turn
pump_turn-overdue s r h = ground arith

overdue_later :
    (s : Pump) (r : Ready) (rs : List Ready)
    → outcome (pump_turn s r) ≡ none
    → any is_overdue (r ∷ rs) ≡ true
    → any is_overdue rs ≡ true
overdue_later s r rs more h = elim (Bool-cases (is_overdue r)) [
  | inl now ↦ absurd (cc (more, pump_turn-overdue s r now))
  | inr later ↦ ground arith
]

pump-overdue : (s : Pump) (rs : List Ready) → any is_overdue rs ≡ true → outcome (pump s rs) ≢ none
pump-overdue s [] h = cc
pump-overdue s (r ∷ rs) h = elim (Option-cases (outcome (pump_turn s r))) [
  | inl more ↦
      rw (pump-again s r rs more)
        (pump-overdue (state_of (pump_turn s r)) rs (overdue_later s r rs more h))
  | inr (u, over) ↦ rw (pump-done s r rs over) (λ e. cc (over, e))
]

deliver-ends : (status : ℕ) (s : Script) (t : Step) → outcome t ≢ none → deliver status s t ≢ none
unfolding deliver
deliver-ends status s (again p) h = absurd (h refl)
deliver-ends status s (done p u) h = λ e. cc

conclude-ends :
    (has_body is_head : Bool) (s : Script) (t : Turn Waiting Answer)
    → outcome t ≢ none
    → any is_overdue s.turns ≡ true
    → conclude has_body is_head s t ≢ none
unfolding conclude
conclude-ends has_body is_head s (again w) h d = absurd (h refl)
conclude-ends has_body is_head s (done w refused) h d = λ e. cc
conclude-ends has_body is_head s (done w (started status headers)) h d =
    deliver-ends status s (pump (enter has_body is_head w) s.turns)
      (pump-overdue (enter has_body is_head w) s.turns d)

-- A request is over, whatever happens before, once each of its two loops has met a turn in which its
-- deadline has passed and no other source is ready.
pub respond-ends :
    (has_body is_head : Bool) (s : Script)
    → any is_overdue s.starts ≡ true
    → any is_overdue s.turns ≡ true
    → respond has_body is_head s ≢ none
unfolding respond
respond-ends has_body is_head s a b =
    conclude-ends has_body is_head s (await_start (waiting has_body) s.starts)
      (await_start-overdue (waiting has_body) s.starts a) b
