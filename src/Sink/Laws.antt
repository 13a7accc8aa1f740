-- ===== src/Sink/Laws.antt =====
-- Order, bound and answers of the application's `send()` (src/asgi.rs, src/ws.rs).
use mathlib.Core.Path.{subst}
use mathlib.Core.List.{append-nil, append_assoc}
use rustasgi.Base.{
  ℕ, ◌≤◌, ◌≡◌, ◌⊎◌, refl, sym, ap, ◌∙◌, Bool, true, false, List, [], ◌∷◌, ◌++◌, Option, none, some,
  length, Result, ok, err, if◌then◌else◌, if_both, ltb, ltb→lt, not, arith, Bool-cases, inl, inr,
}
use rustasgi.Python.{PyErr, raised}
use rustasgi.Metrics.{Metrics}
use rustasgi.Sink.{Mpsc, Sink, Reply, accepted, parked, refused}
use rustasgi.Sink.Push.{Kind, offer, offered, push, Move, act, run, fresh, and_then, put_reply}
use rustasgi.Sink.Steps.{taken, given, all_taken, all_given, queued, is_open, Keeps}
use rustasgi.Sink.Moves.{Rests, keeps, rests, AllMoves, act-AllMoves}

module _ {E : Type 0} {bound : ℕ} (M : Mpsc E bound) (kind : Kind E) where
  -- What a run makes of its start: what was queued, then what the application handed over, is what
  -- the receiver got, in that order, then a rest, which is still queued if the receiver lives.
  pub record IsFifo (s s1 : Sink M) (rs : List (Reply E)) : Type 0 where
    pub rest : List E
    pub in_order : queued M kind s ++ all_taken rs ≡ all_given rs ++ rest
    pub left : is_open M kind s1 ≡ true → rest ≡ queued M kind s1
    pub bounded :
        is_open M kind s1 ≡ true
        → length (M.buffered s.channel) ≤ bound
        → length (M.buffered s1.channel) ≤ bound

  unfoldable AllFifo : Sink M → Option (Sink M × List (Reply E)) → Type 0
  AllFifo s none = Unit
  AllFifo s (some (s1, rs)) = IsFifo s s1 rs

  -- After the end of the receiver a run takes and gives nothing.
  unfoldable AllRests : Option (Sink M × List (Reply E)) → Type 0
  AllRests none = Unit
  AllRests (some (s1, rs)) = (all_taken rs ≡ []) × (all_given rs ≡ []) × (is_open M kind s1 ≡ false)

  put_reply-AllRests :
      (s1 : Sink M) (r : Reply E) (o : Option (Sink M × List (Reply E)))
      → Rests M kind s1 r
      → AllRests o
      → AllRests (put_reply M kind r o)
  unfolding AllRests
  put_reply-AllRests s1 r none k h = tt
  put_reply-AllRests s1 r (some (s2, rs)) k (t, g, c) =
      (rw (k.takes_none, t) refl, rw (k.gives_none, g) refl, c)

  and_then-AllRests :
      (s : Sink M) (o : Option (Sink M × Reply E))
      (next : Sink M → Option (Sink M × List (Reply E)))
      → is_open M kind s ≡ false
      → AllMoves M kind s o
      → ((s1 : Sink M) → is_open M kind s1 ≡ false → AllRests (next s1))
      → AllRests (and_then M kind o next)
  unfolding AllRests
  and_then-AllRests s none next c h f = tt
  and_then-AllRests s (some (s1, r)) next c (keeps o k) f = absurd (ground arith)
  and_then-AllRests s (some (s1, r)) next c (rests k) f =
      put_reply-AllRests s1 r (next s1) k (f s1 k.stays_closed)

  run-AllRests :
      (s : Sink M) (ms : List (Move E)) → is_open M kind s ≡ false → AllRests (run M kind s ms)
  unfolding AllRests run
  run-AllRests s [] c = (refl, refl, c)
  run-AllRests s (m ∷ ms) c =
      and_then-AllRests s (act M kind s m) _ c (act-AllMoves M kind s m) (λ s1. run-AllRests s1 ms)

  -- One more move in front of a run.
  Keeps-AllFifo :
      (s s1 : Sink M) (r : Reply E) (o : Option (Sink M × List (Reply E)))
      → Keeps M kind s s1 r
      → AllFifo s1 o
      → AllFifo s (put_reply M kind r o)
  unfolding AllFifo
  Keeps-AllFifo s s1 r none k h = tt
  Keeps-AllFifo s s1 r (some (s2, rs)) k h = record {
    rest = h.rest;
    in_order =
        sym (append_assoc (queued M kind s) (taken r) (all_taken rs))
        ∙ ap (λ es. es ++ all_taken rs) k.fifo
        ∙ append_assoc (given r) (queued M kind s1) (all_taken rs)
        ∙ ap (λ es. given r ++ es) h.in_order
        ∙ sym (append_assoc (given r) (all_given rs) h.rest);
    left = h.left;
    bounded = λ o b. h.bounded o (k.bounded b);
  }

  Rests-AllFifo :
      (s s1 : Sink M) (r : Reply E) (o : Option (Sink M × List (Reply E)))
      → Rests M kind s1 r
      → AllRests o
      → AllFifo s (put_reply M kind r o)
  unfolding AllFifo AllRests
  Rests-AllFifo s s1 r none k h = tt
  Rests-AllFifo s s1 r (some (s2, rs)) k (t, g, c) = record {
    rest = queued M kind s;
    in_order = rw (k.takes_none, k.gives_none, t, g) (append-nil _);
    left = λ o. absurd (ground arith);
    bounded = λ o. absurd (ground arith);
  }

  and_then-AllFifo :
      (s : Sink M) (o : Option (Sink M × Reply E))
      (next : Sink M → Option (Sink M × List (Reply E)))
      → AllMoves M kind s o
      → ((s1 : Sink M) → AllFifo s1 (next s1))
      → ((s1 : Sink M) → is_open M kind s1 ≡ false → AllRests (next s1))
      → AllFifo s (and_then M kind o next)
  unfolding AllFifo
  and_then-AllFifo s none next h f g = tt
  and_then-AllFifo s (some (s1, r)) next (keeps o k) f g = Keeps-AllFifo s s1 r (next s1) k (f s1)
  and_then-AllFifo s (some (s1, r)) next (rests k) f g =
      Rests-AllFifo s s1 r (next s1) k (g s1 k.stays_closed)

  run-AllFifo : (s : Sink M) (ms : List (Move E)) → AllFifo s (run M kind s ms)
  unfolding AllFifo run
  run-AllFifo s [] = record {
    rest = queued M kind s;
    in_order = append-nil _;
    left = λ o. refl;
    bounded = λ o b. b;
  }
  run-AllFifo s (m ∷ ms) =
      and_then-AllFifo s (act M kind s m) _ (act-AllMoves M kind s m) (λ s1. run-AllFifo s1 ms)
        (λ s1. run-AllRests s1 ms)

  -- However the application's sends, the polls of an awaited one, the receiver, a disconnect and the
  -- end of the receiver come one after another on a new channel, the channel behaves as a queue: the
  -- events that the receiver got, followed by a rest, are those that the sends took, in their order,
  -- none lost or doubled. While the receiver lives, the rest is what the channel holds followed by
  -- the event that still waits, and the channel holds no more than its bound.
  pub run-IsFifo :
      (metrics : Metrics) (ms : List (Move E)) (s : Sink M) (rs : List (Reply E))
      → run M kind (fresh M metrics) ms ≡ some (s, rs)
      → (rest : List E) × (all_taken rs ≡ all_given rs ++ rest)
        × ((is_open M kind s ≡ false)
            ⊎ ((rest ≡ queued M kind s) × (length (M.buffered s.channel) ≤ bound)))
  unfolding AllFifo
  run-IsFifo metrics ms s rs e = (
    h.rest,
    rw (← h.in_order, M.new_empty) refl,
    elim (Bool-cases (is_open M kind s)) [
      | inl o ↦ inr (h.left o, h.bounded o (rw M.new_empty (omega arith)))
      | inr c ↦ inl c
    ],
  )
    where
      h : IsFifo (fresh M metrics) s rs
      h = subst (AllFifo (fresh M metrics)) e (run-AllFifo (fresh M metrics) ms)

  -- What a send answers, read off the flag, the message, the receiver and the room that is left.
  abbrev pub open_answer : Bool → Sink M → E → Reply E
  open_answer spawns s e =
      if not (is_open M kind s)
      then refused kind.connection_closed
      else if ltb (length (M.buffered s.channel)) bound
      then accepted e
      else if spawns
      then parked e
      else refused raised

  abbrev pub answer : Bool → Sink M → Result PyErr E → Reply E
  answer spawns s (err e) = if s.disconnected then refused kind.after_disconnect else refused e
  answer spawns s (ok e) =
      if s.disconnected then refused kind.after_disconnect else open_answer spawns s e

  -- The event that an answer leaves in the channel.
  abbrev pub put_at_once : Reply E → List E
  put_at_once (accepted e) = e ∷ []
  put_at_once _ = []

  -- The result of a send is this answer, and leaves its event.
  abbrev pub Answers : Sink M → Sink M × Reply E → Reply E → Type 0
  Answers s p r = (p.1 ≡ r) × (M.buffered (p.0).channel ≡ M.buffered s.channel ++ put_at_once p.1)

  offer-answer :
      (spawns : Bool) (s : Sink M) (e : E)
      → Answers s (offer M kind spawns s e) (open_answer spawns s e)
  unfolding offer offered
  offer-answer spawns s e = elim (Bool-cases (is_open M kind s)) [
    | inr c ↦ rw (M.try_send_laws.no_receiver s.channel e c, c) (refl, sym (append-nil _))
    | inl o ↦ elim (Bool-cases (ltb (length (M.buffered s.channel)) bound)) [
      | inl fits ↦
          let r = M.try_send_laws.room s.channel e o (ltb→lt _ _ fits) in
          rw (r.0, r.1, o, fits) (refl, refl)
      | inr no_room ↦ elim (Bool-cases spawns) [
        | inl b ↦
            rw (M.try_send_laws.no_room s.channel e o (ground arith), o, no_room, b)
              (refl, sym (append-nil _))
        | inr b ↦
            rw (M.try_send_laws.no_room s.channel e o (ground arith), o, no_room, b)
              (refl, sym (append-nil _))
      ]
    ]
  ]

  -- A send answers as the flag, its message, the receiver and the room decide, in this order: an
  -- error behind a disconnect, the error of the message, an error where the receiver is gone, `None`
  -- where the channel has room, and otherwise an awaitable if one can be made; and the event is in
  -- the channel at once exactly if the answer is `None`.
  pub push-answer :
      (spawns : Bool) (s : Sink M) (parsed : Result PyErr E)
      → Answers s (push M kind spawns s parsed) (answer spawns s parsed)
  unfolding push
  push-answer spawns s (err e) =
      if_both (Answers s) s.disconnected (refl, sym (append-nil _)) (refl, sym (append-nil _))
  push-answer spawns s (ok e) =
      if_both (Answers s) s.disconnected (refl, sym (append-nil _)) (offer-answer spawns s e)
