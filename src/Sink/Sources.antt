-- ===== src/Sink/Sources.antt =====
-- What a sink takes comes from the application's messages (src/asgi.rs, src/ws.rs).
use rustasgi.Base.{
  ℕ, ◌≡◌, sym, Bool, List, [], ◌∷◌, Option, none, some, Result, ok, err, All, All-append, if_elim,
  ltb, length, not,
}
use mathlib.Core.Path.{subst}
use rustasgi.Python.{PyErr, raised}
use rustasgi.Sink.{Mpsc, Sink, Sent, sent, full, closed, Reply, accepted, parked, refused, received}
use rustasgi.Sink.Push.{
  Kind, push, polled, resume, Move, send, poll, recv, disconnect, drop_receiver, act, run, and_then,
  put_reply,
}
use rustasgi.Sink.Steps.{taken, all_taken}
use rustasgi.Sink.Laws.{push-answer, answer}

-- A message that is valid gives an event with the property.
abbrev pub Source : {E : Type 0} → (E → Type 0) → Move E → Type 0
Source P (send spawns (ok e)) = P e
Source P _ = Unit

module _ {E : Type 0} {bound : ℕ} (M : Mpsc E bound) (kind : Kind E) (P : E → Type 0) where
  abbrev Takes : Reply E → Type 0
  Takes r = All P (taken r)

  answer-Takes :
      (spawns : Bool) (s : Sink M) (parsed : Result PyErr E)
      → Source P (send spawns parsed)
      → Takes (answer M kind spawns s parsed)
  answer-Takes spawns s (err e) h = if_elim Takes s.disconnected tt tt
  answer-Takes spawns s (ok e) h = if_elim Takes s.disconnected tt (
      if_elim Takes (not (M.is_open s.channel)) {x = refused kind.connection_closed} tt (
        if_elim Takes (ltb (length (M.buffered s.channel)) bound) {x = accepted e} (h, tt)
          (if_elim Takes spawns {x = parked e} {y = refused raised} (h, tt) tt)))

  push-Takes :
      (spawns : Bool) (s : Sink M) (parsed : Result PyErr E)
      → Source P (send spawns parsed)
      → Takes (push M kind spawns s parsed).1
  push-Takes spawns s parsed h =
      subst Takes (sym (push-answer M kind spawns s parsed).0) (answer-Takes spawns s parsed h)

  polled-Takes : (s : Sink M) (outcome : Sent E) → Takes (polled M kind s outcome).1
  unfolding polled
  polled-Takes s sent = tt
  polled-Takes s (full e) = tt
  polled-Takes s closed = tt

  received-Takes : (e : Option E) → Takes (received e)
  received-Takes none = tt
  received-Takes (some e) = tt

  abbrev AllTake : Option (Sink M × Reply E) → Type 0
  AllTake none = Unit
  AllTake (some (s, r)) = Takes r

  act-AllTake : (s : Sink M) (m : Move E) → Source P m → AllTake (act M kind s m)
  unfolding act resume
  act-AllTake s (send spawns parsed) h =
      elim s.waiting
        as (λ o. AllTake (elim o [ some _ ↦ none | none ↦ some (push M kind spawns s parsed) ])) [
          | none ↦ push-Takes spawns s parsed h
          | some _ ↦ tt
        ]
  act-AllTake s poll h =
      elim s.waiting
        as (λ o. AllTake (elim o [ some e ↦ some (resume M kind s e) | none ↦ none ])) [
          | none ↦ tt
          | some e ↦
              polled-Takes (record s { channel = (M.poll_send s.channel e).0 })
                (M.poll_send s.channel e).1
        ]
  act-AllTake s recv h =
      let (c, e) = M.recv s.channel in
      if_elim AllTake (M.is_open s.channel) {x = some (record s { channel = c }, received e)}
        {y = none} (received-Takes e) tt
  act-AllTake s disconnect h = tt
  act-AllTake s drop_receiver h = tt

  abbrev AllTaken : Option (Sink M × List (Reply E)) → Type 0
  AllTaken none = Unit
  AllTaken (some (s, rs)) = All P (all_taken rs)

  put_reply-AllTaken :
      (r : Reply E) (o : Option (Sink M × List (Reply E)))
      → Takes r
      → AllTaken o
      → AllTaken (put_reply M kind r o)
  put_reply-AllTaken r none h hs = tt
  put_reply-AllTaken r (some (s, rs)) h hs = All-append P (taken r) (all_taken rs) h hs

  and_then-AllTaken :
      (o : Option (Sink M × Reply E)) (next : Sink M → Option (Sink M × List (Reply E)))
      → AllTake o
      → ((s : Sink M) → AllTaken (next s))
      → AllTaken (and_then M kind o next)
  and_then-AllTaken none next h f = tt
  and_then-AllTaken (some (s, r)) next h f = put_reply-AllTaken r (next s) h (f s)

  run-AllTaken : (s : Sink M) (ms : List (Move E)) → All (Source P) ms → AllTaken (run M kind s ms)
  unfolding run
  run-AllTaken s [] h = tt
  run-AllTaken s (m ∷ ms) (h, hs) =
      and_then-AllTaken (act M kind s m) _ (act-AllTake s m h) (λ s1. run-AllTaken s1 ms hs)

  -- Whatever the valid messages' events have in common, the events that a run takes have.
  pub run-sources :
      (s s1 : Sink M) (ms : List (Move E)) (rs : List (Reply E))
      → All (Source P) ms
      → run M kind s ms ≡ some (s1, rs)
      → All P (all_taken rs)
  run-sources s s1 ms rs h e = subst AllTaken e (run-AllTaken s ms h)
