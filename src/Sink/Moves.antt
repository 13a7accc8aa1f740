-- ===== src/Sink/Moves.antt =====
-- Each move on a sink keeps the order of the events, or finds or leaves the channel closed
-- (src/asgi.rs, src/ws.rs).
use mathlib.Core.List.{append-nil}
use rustasgi.Base.{
  ℕ, ◌≡◌, refl, Bool, true, false, [], Option, none, some, Result, ok, err, if_elim, Bool-cases,
  inl, inr,
}
use rustasgi.Python.{PyErr}
use rustasgi.Sink.{Mpsc, Sink, Reply, done}
use rustasgi.Sink.Push.{
  Kind, offered, offer, push, polled, resume, Move, send, poll, recv, disconnect, drop_receiver,
  act,
}
use rustasgi.Sink.Steps.{
  taken, given, is_open, Keeps, unmoved-Keeps, push-Keeps, resume-Keeps, recv-Keeps,
}

module _ {E : Type 0} {bound : ℕ} (M : Mpsc E bound) (kind : Kind E) where
  -- A closed channel takes and gives nothing, and stays closed.
  pub record Rests (s1 : Sink M) (r : Reply E) : Type 0 where
    pub takes_none : taken r ≡ []
    pub gives_none : given r ≡ []
    pub stays_closed : is_open M kind s1 ≡ false

  push-Rests :
      (spawns : Bool) (s : Sink M) (parsed : Result PyErr E)
      → is_open M kind s ≡ false
      → let (s1, r) = push M kind spawns s parsed in Rests s1 r
  unfolding push offer offered
  push-Rests spawns s (err x) o =
      if_elim (λ (p : Sink M × Reply E). Rests p.0 p.1) s.disconnected
        (record { takes_none = refl; gives_none = refl; stays_closed = o })
        (record { takes_none = refl; gives_none = refl; stays_closed = o })
  push-Rests spawns s (ok e) o =
      if_elim (λ (p : Sink M × Reply E). Rests p.0 p.1) s.disconnected
        (record { takes_none = refl; gives_none = refl; stays_closed = o })
        (rw (M.try_send_laws.no_receiver s.channel e o)
          (record { takes_none = refl; gives_none = refl; stays_closed = o }))

  resume-Rests :
      (s : Sink M) (e : E)
      → is_open M kind s ≡ false
      → let (s1, r) = resume M kind s e in Rests s1 r
  unfolding resume polled
  resume-Rests s e o =
      rw (M.poll_send_laws.no_receiver s.channel e o)
        (record { takes_none = refl; gives_none = refl; stays_closed = o })

  -- A move keeps the order while the receiver lives, or drops it, or finds it gone.
  pub data Moves (s s1 : Sink M) (r : Reply E) : Type 0 where
    keeps : is_open M kind s ≡ true → Keeps M kind s s1 r → Moves s s1 r
    rests : Rests s1 r → Moves s s1 r

  abbrev pub AllMoves : Sink M → Option (Sink M × Reply E) → Type 0
  AllMoves s none = Unit
  AllMoves s (some (s1, r)) = Moves s s1 r

  -- By the state of the channel.
  by_open :
      (s s1 : Sink M) (r : Reply E)
      → (is_open M kind s ≡ true → Keeps M kind s s1 r)
      → (is_open M kind s ≡ false → Rests s1 r)
      → Moves s s1 r
  by_open s s1 r f g = elim (Bool-cases (is_open M kind s)) [
    | inl o ↦ keeps o (f o)
    | inr c ↦ rests (g c)
  ]

  pub act-AllMoves : (s : Sink M) (m : Move E) → AllMoves s (act M kind s m)
  unfolding act
  act-AllMoves s (send spawns parsed) = go s.waiting refl
    where
      go :
          (o : Option E)
          → s.waiting ≡ o
          → AllMoves s (elim o [ some _ ↦ none | none ↦ some (push M kind spawns s parsed) ])
      go none w =
          by_open s _ _ (λ o. push-Keeps M kind spawns s parsed o w) (push-Rests spawns s parsed)
      go (some e) w = tt
  act-AllMoves s poll = go s.waiting refl
    where
      go :
          (o : Option E)
          → s.waiting ≡ o
          → AllMoves s (elim o [ some e ↦ some (resume M kind s e) | none ↦ none ])
      go none w = tt
      go (some e) w = by_open s _ _ (λ o. resume-Keeps M kind s e o w) (resume-Rests s e)
  act-AllMoves s recv = elim (Bool-cases (is_open M kind s)) [
    | inl o ↦ rw o (keeps o (recv-Keeps M kind s o))
    | inr c ↦ rw c tt
  ]
  act-AllMoves s disconnect =
      by_open s _ _ (λ o. unmoved-Keeps M kind s _ done o refl (append-nil _) refl)
        (λ c. record { takes_none = refl; gives_none = refl; stays_closed = c })
  act-AllMoves s drop_receiver =
      rests
        (record { takes_none = refl; gives_none = refl; stays_closed = M.close_closed s.channel })
