-- ===== src/Response/StreamLaws.antt =====
-- What the client gets of a response, and what the server counts (src/server.rs, `handle_http`).
use mathlib.Core.List.{append-nil, append_assoc}
use rustasgi.Base.{
  is_empty, inl, inr, Option-cases, All, ℕ, ◌+◌, ◌≡◌, Bool, true, false, not, ◌||◌, List, [], ◌∷◌,
  ◌++◌, Option, none, some, if◌then◌else◌, length, arith,
}
use rustasgi.Message.{ResponseEvent, start, body}
use rustasgi.Response.{Ready, again, outcome, state_of, again_of_outcome}
use rustasgi.Response.Stream.{Pump, pump_turn, pump}

-- What the application's channel yields while the loop runs.
abbrev pub events : List Ready → List (Option ResponseEvent)
events [] = []
events (r ∷ rs) = elim r.recv [ some e ↦ e ∷ events rs | none ↦ events rs ]

-- The chunks that the ASGI messages stand for: those of the body events up to the first that says
-- that no more follows, or up to the channel's end; empty ones are left out, and a later start
-- event counts for nothing.
abbrev pub content : List (Option ResponseEvent) → List (List ℕ)
content [] = []
content (none ∷ es) = []
content (some (start _ _) ∷ es) = content es
content (some (body chunk more) ∷ es) =
    let rest = if more then content es else [] in if is_empty chunk then rest else chunk ∷ rest

-- Whether they say that the response is complete.
abbrev pub is_complete : List (Option ResponseEvent) → Bool
is_complete [] = false
is_complete (none ∷ es) = true
is_complete (some (start _ _) ∷ es) = is_complete es
is_complete (some (body _ more) ∷ es) = not more || is_complete es

abbrev pub total : List (List ℕ) → ℕ
total [] = 0
total (c ∷ cs) = length c + total cs

-- The client is there and the deadline has not passed.
abbrev pub IsCalm : Ready → Type 0
IsCalm r = (r.client_gone ≡ false) × (r.deadline ≡ false)

-- What the client gets: nothing for a HEAD request.
abbrev pub written : Bool → List (List ℕ) → List (List ℕ)
written is_head cs = if is_head then [] else cs

pub pump-again :
    (s : Pump) (r : Ready) (rs : List Ready)
    → outcome (pump_turn s r) ≡ none
    → pump s (r ∷ rs) ≡ pump (state_of (pump_turn s r)) rs
unfolding pump
pump-again s r rs h = rw (again_of_outcome (pump_turn s r) h, pump)

pub pump-done :
    (s : Pump) (r : Ready) (rs : List Ready) {u : Unit {0}}
    → outcome (pump_turn s r) ≡ some u
    → pump s (r ∷ rs) ≡ pump_turn s r
unfolding pump
pump-done s r rs h = ground arith

-- A turn without an event leaves the response alone and goes on.
pub turn_quiet :
    (s : Pump) (r : Ready)
    → r.recv ≡ none
    → r.deadline ≡ false
    → (outcome (pump_turn s r) ≡ none)
      × ((state_of (pump_turn s r)).sent ≡ s.sent)
      × ((state_of (pump_turn s r)).bytes_sent ≡ s.bytes_sent)
      × ((state_of (pump_turn s r)).is_head ≡ s.is_head)
unfolding pump_turn
turn_quiet s r h d = (ground arith, ground arith, ground arith, ground arith)

pub turn_start :
    (s : Pump) (r : Ready) {status : ℕ} {headers : List (List ℕ × List ℕ)}
    → r.recv ≡ some (some (start status headers))
    → pump_turn s r ≡ again s
unfolding pump_turn
turn_start s r h = ground arith

pub turn_body :
    (s : Pump) (r : Ready) (chunk : List ℕ) (more : Bool)
    → r.recv ≡ some (some (body chunk more))
    → r.client_gone ≡ false
    → (outcome (pump_turn s r) ≡ (if more then none else some tt))
      × ((state_of (pump_turn s r)).sent
          ≡ (if s.is_head || is_empty chunk then s.sent else s.sent ++ chunk ∷ []))
      × ((state_of (pump_turn s r)).is_head ≡ s.is_head)
unfolding pump_turn
turn_body s r chunk more h g = (ground arith, ground arith, ground arith)

pub turn_closed :
    (s : Pump) (r : Ready)
    → r.recv ≡ some none
    → (outcome (pump_turn s r) ≡ some tt) × (state_of (pump_turn s r) ≡ s)
unfolding pump_turn
turn_closed s r h = (ground arith, ground arith)

pub pump-start :
    (s : Pump) (r : Ready) (rs : List Ready) {status : ℕ} {headers : List (List ℕ × List ℕ)}
    → r.recv ≡ some (some (start status headers))
    → pump s (r ∷ rs) ≡ pump s rs
unfolding pump
pump-start s r rs h = rw (turn_start s r h, pump)

pub events-none : (r : Ready) (rs : List Ready) → r.recv ≡ none → events (r ∷ rs) ≡ events rs
events-none r rs h = ground arith

pub events-some :
    (r : Ready) (rs : List Ready) (e : Option ResponseEvent)
    → r.recv ≡ some e
    → events (r ∷ rs) ≡ e ∷ events rs
events-some r rs e h = ground arith

abbrev SendsRight : Pump → List Ready → Type 0
SendsRight s rs = (state_of (pump s rs)).sent ≡ s.sent ++ written s.is_head (content (events rs))

pump_sent-body :
    (s : Pump) (r : Ready) (rs : List Ready) (chunk : List ℕ) (more : Bool)
    → r.recv ≡ some (some (body chunk more))
    → r.client_gone ≡ false
    → SendsRight (state_of (pump_turn s r)) rs
    → SendsRight s (r ∷ rs)
pump_sent-body s r rs chunk false h g ih =
    let (over, sent, same) = turn_body s r chunk false h g in
    rw (pump-done s r rs over, events-some r rs (some (body chunk false)) h)
      (ground (arith, sent, append-nil s.sent))
pump_sent-body s r rs chunk true h g ih =
    let (more, sent, same) = turn_body s r chunk true h g in
    rw (pump-again s r rs more, events-some r rs (some (body chunk true)) h)
      (ground (
        arith,
        ih,
        sent,
        same,
        append-nil s.sent,
        append_assoc s.sent (chunk ∷ []) (content (events rs)),
      ))

pump_sent-event :
    (s : Pump) (r : Ready) (rs : List Ready) (e : Option ResponseEvent)
    → r.recv ≡ some e
    → r.client_gone ≡ false
    → ((s' : Pump) → SendsRight s' rs)
    → SendsRight s (r ∷ rs)
pump_sent-event s r rs none h g ih =
    rw (pump-done s r rs (turn_closed s r h).0, events-some r rs none h)
      (ground (arith, (turn_closed s r h).1, append-nil s.sent))
pump_sent-event s r rs (some (start status headers)) h g ih =
    rw (pump-start s r rs h, events-some r rs (some (start status headers)) h) (ih s)
pump_sent-event s r rs (some (body chunk more)) h g ih =
    pump_sent-body s r rs chunk more h g (ih (state_of (pump_turn s r)))

-- While the client is there and the deadline does not pass, it has got exactly the chunks that the
-- application's messages stand for, in their order, each once, and nothing for a HEAD request:
-- whatever the request body, the application's end and the interleaving of these.
pub pump_sent :
    (s : Pump) (rs : List Ready)
    → All IsCalm rs
    → (state_of (pump s rs)).sent ≡ s.sent ++ written s.is_head (content (events rs))
pump_sent s [] h = unfold pump in ground (arith, append-nil s.sent)
pump_sent s (r ∷ rs) ((g, d), h) = elim (Option-cases r.recv) [
  | inl pending ↦
      let (more, sent, bytes, same) = turn_quiet s r pending d in
      rw (pump-again s r rs more, events-none r rs pending)
        (ground (arith, pump_sent (state_of (pump_turn s r)) rs h, sent, same))
  | inr (e, event) ↦ pump_sent-event s r rs e event g (λ s'. pump_sent s' rs h)
]
