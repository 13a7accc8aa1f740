-- ===== src/Tests/Sinks.antt =====
-- The sinks of src/asgi.rs and src/ws.rs over a channel that is a list with a flag.
use rustasgi.Base.{
  ℕ, ◌≤◌, ◌<◌, ◌≡◌, ◌⊎◌, refl, Bool, true, false, List, [], ◌∷◌, ◌++◌, Option, none, some, length,
  ltb, lt→ltb, ok, if◌then◌else◌, arith,
}
use rustasgi.Metrics.{Metrics, initial, inc, enabled_by}
use rustasgi.Message.{ResponseEvent, body}
use rustasgi.Sink.{
  Sent, sent, full, closed, SendLaws, Mpsc, Sink, Reply, accepted, parked, refused, resumed,
  still_waiting, received, done,
}
use rustasgi.Sink.Push.{http, push, act, Move, send, poll, recv, disconnect, run}
use rustasgi.Sink.Laws.{run-IsFifo, push-answer, Answers}

abbrev pub Chan : Type 0 → Type 0
Chan E = Bool × List E

abbrev pub put : {E : Type 0} → ℕ → Chan E → E → Chan E × Sent E
put bound (true, es) e =
    if ltb (length es) bound then ((true, es ++ e ∷ []), sent) else ((true, es), full e)
put bound (false, es) e = ((false, es), closed)

abbrev pub take : {E : Type 0} → Chan E → Chan E × Option E
take (b, []) = ((b, []), none)
take (b, e ∷ es) = ((b, es), some e)

pub put_laws :
    {E : Type 0} (bound : ℕ) → SendLaws E (Chan E) bound (λ c. c.0) (λ c. c.1) (put bound)
put_laws {E} bound = record {
  room = put_room;
  no_room = put_no_room;
  no_receiver = put_no_receiver;
}
  where
    put_room :
        (s : Chan E) (e : E)
        → s.0 ≡ true
        → length s.1 < bound
        → ((put bound s e).1 ≡ sent)
          × ((put bound s e).0.1 ≡ s.1 ++ e ∷ [])
          × ((put bound s e).0.0 ≡ true)
    put_room (true, es) e o h = rw (lt→ltb _ _ h) (refl, refl, refl)
    put_room (false, es) e o h = absurd cc

    put_no_room :
        (s : Chan E) (e : E) → s.0 ≡ true → bound ≤ length s.1 → put bound s e ≡ (s, full e)
    put_no_room (true, es) e o h = ground arith
    put_no_room (false, es) e o h = absurd cc

    put_no_receiver : (s : Chan E) (e : E) → s.0 ≡ false → put bound s e ≡ (s, closed)
    put_no_receiver (true, es) e o = absurd cc
    put_no_receiver (false, es) e o = refl

pub take_first :
    {E : Type 0} (s : Chan E) (e : E) (es : List E)
    → s.0 ≡ true
    → s.1 ≡ e ∷ es
    → ((take s).1 ≡ some e) × ((take s).0.1 ≡ es) × ((take s).0.0 ≡ true)
take_first (b, []) e es o h = absurd cc
take_first (b, x ∷ xs) e es o h = (cc, cc, o)

pub take_of_empty : {E : Type 0} (s : Chan E) → s.0 ≡ true → s.1 ≡ [] → take s ≡ (s, none)
take_of_empty (b, []) o h = refl
take_of_empty (b, x ∷ xs) o h = absurd cc

abbrev pub lists : {E : Type 0} (bound : ℕ) → Mpsc E bound
lists {E} bound = record {
  State = Chan E;
  new = (true, []);
  try_send = put bound;
  poll_send = put bound;
  recv = take;
  close = λ s. (false, s.1);
  is_open = λ s. s.0;
  buffered = λ s. s.1;
  new_open = refl;
  new_empty = refl;
  try_send_laws = put_laws bound;
  poll_send_laws = put_laws bound;
  recv_none = take_of_empty;
  recv_first = take_first;
  close_closed = λ s. refl;
}

-- A channel of one event: the second send waits until the first event is received.
abbrev first : ResponseEvent
first = body (1 ∷ []) true

abbrev second : ResponseEvent
second = body (2 ∷ []) false

abbrev moves : List (Move ResponseEvent)
moves =
    send true (ok first)
    ∷ send true (ok second)
    ∷ poll
    ∷ recv
    ∷ poll
    ∷ disconnect
    ∷ send true (ok first)
    ∷ []

abbrev pub idle : Metrics
idle = initial none

abbrev last : Sink {E = ResponseEvent} (lists 1)
last = record { channel = (true, second ∷ []); disconnected = true; waiting = none; metrics = idle }

abbrev replies : List (Reply ResponseEvent)
replies =
    accepted first
    ∷ parked second
    ∷ still_waiting
    ∷ received (some first)
    ∷ resumed
    ∷ done
    ∷ refused http.after_disconnect
    ∷ []

run-IsFifo_example :
    (rest : List ResponseEvent) × (first ∷ second ∷ [] ≡ first ∷ rest)
    × ((true ≡ false) ⊎ ((rest ≡ second ∷ []) × (1 ≤ 1)))
unfolding run act inc enabled_by
run-IsFifo_example = run-IsFifo (lists 1) http idle moves last replies refl

abbrev open_last : Sink {E = ResponseEvent} (lists 1)
open_last = record last { disconnected = false }

push-answer_example :
    Answers (lists 1) http open_last (push (lists 1) http true open_last (ok first)) (parked first)
push-answer_example = push-answer (lists 1) http true open_last (ok first)
