-- ===== src/Response/CountLaws.antt =====
-- When the response task ends and what it counts as sent (src/server.rs, `handle_http`).
use rustasgi.Base.{
  ℕ, ◌+◌, ◌%◌, ◌^◌, ◌<◌, ◌≡◌, refl, Bool, true, false, List, [], ◌∷◌, Option, none, some, All, inl,
  inr, if◌then◌else◌, Option-cases, length, arith,
}
use rustasgi.Message.{ResponseEvent, start, body}
use rustasgi.Response.{Ready, outcome, state_of}
use rustasgi.Response.Stream.{Pump, add_u64, pump_turn, pump}
use rustasgi.Response.StreamLaws.{
  events, content, is_complete, total, IsCalm, pump-again, pump-done, turn_quiet, turn_body,
  turn_closed, pump-start, events-none, events-some,
}

abbrev CountsRight : Pump → List Ready → Type 0
CountsRight s rs =
    (outcome (pump s rs) ≡ (if is_complete (events rs) then some tt else none))
    × ((state_of (pump s rs)).bytes_sent ≡ (s.bytes_sent + total (content (events rs))) % 2 ^ 64)

turn_bytes :
    (s : Pump) (r : Ready) (chunk : List ℕ) (more : Bool)
    → r.recv ≡ some (some (body chunk more))
    → r.client_gone ≡ false
    → s.bytes_sent < 2 ^ 64
    → (state_of (pump_turn s r)).bytes_sent ≡ add_u64 s.bytes_sent (length chunk)
unfolding pump_turn
turn_bytes s r [] more h g b = ground arith
turn_bytes s r (c ∷ cs) more h g b = ground arith

total-content :
    (chunk : List ℕ) (more : Bool) (es : List (Option ResponseEvent))
    → total (content (some (body chunk more) ∷ es))
      ≡ length chunk + total (if more then content es else [])
total-content [] more es = omega arith
total-content (c ∷ cs) more es = omega arith

counts-body :
    (s : Pump) (r : Ready) (rs : List Ready) (chunk : List ℕ) (more : Bool)
    → r.recv ≡ some (some (body chunk more))
    → r.client_gone ≡ false
    → s.bytes_sent < 2 ^ 64
    → CountsRight (state_of (pump_turn s r)) rs
    → CountsRight s (r ∷ rs)
counts-body s r rs chunk false h g b ih =
    let over = (turn_body s r chunk false h g).0 in
    let count = turn_bytes s r chunk false h g b in
    rw
      (
        pump-done s r rs over,
        events-some r rs (some (body chunk false)) h,
        total-content chunk false (events rs),
      )
      (over, omega (arith, count))
counts-body s r rs chunk true h g b ih =
    let more = (turn_body s r chunk true h g).0 in
    let count = turn_bytes s r chunk true h g b in
    rw
      (
        pump-again s r rs more,
        events-some r rs (some (body chunk true)) h,
        total-content chunk true (events rs),
      )
      (ih.0, omega (arith, count, ih.1))

counts-event :
    (s : Pump) (r : Ready) (rs : List Ready) (e : Option ResponseEvent)
    → r.recv ≡ some e
    → r.client_gone ≡ false
    → s.bytes_sent < 2 ^ 64
    → ((s' : Pump) → s'.bytes_sent < 2 ^ 64 → CountsRight s' rs)
    → CountsRight s (r ∷ rs)
counts-event s r rs none h g b ih =
    rw (pump-done s r rs (turn_closed s r h).0, events-some r rs none h)
      ((turn_closed s r h).0, ground (arith, (turn_closed s r h).1))
counts-event s r rs (some (start status headers)) h g b ih =
    rw (pump-start s r rs h, events-some r rs (some (start status headers)) h) (ih s b)
counts-event s r rs (some (body chunk more)) h g b ih =
    counts-body s r rs chunk more h g b
      (ih (state_of (pump_turn s r)) (omega (arith, turn_bytes s r chunk more h g b)))

-- While the client is there and the deadline does not pass, the task ends exactly when a body event
-- says that no more follows or the application's channel closes, and it has then counted the bytes
-- of all those chunks, modulo 2^64, whether they were sent or, for a HEAD request, left out.
pub pump_counts :
    (s : Pump) (rs : List Ready)
    → All IsCalm rs
    → s.bytes_sent < 2 ^ 64
    → (outcome (pump s rs) ≡ (if is_complete (events rs) then some tt else none))
      × ((state_of (pump s rs)).bytes_sent ≡ (s.bytes_sent + total (content (events rs))) % 2 ^ 64)
pump_counts s [] h b = unfold pump in (refl, omega arith)
pump_counts s (r ∷ rs) ((g, d), h) b = elim (Option-cases r.recv) [
  | inl pending ↦
      let (more, sent, bytes, same) = turn_quiet s r pending d in
      let ih = pump_counts (state_of (pump_turn s r)) rs h (omega (arith, bytes)) in
      rw (pump-again s r rs more, events-none r rs pending) (ih.0, omega (arith, ih.1, bytes))
  | inr (e, event) ↦ counts-event s r rs e event g b (λ s' b'. pump_counts s' rs h b')
]
