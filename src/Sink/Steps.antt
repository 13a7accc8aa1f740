-- ===== src/Sink/Steps.antt =====
-- Each move on a sink keeps the order of the events and the bound of the channel (src/asgi.rs, src/ws.rs).
use mathlib.Core.List.{append-nil, append_assoc}
use rustasgi.Base.{
  ℕ, ◌≤◌, ◌<◌, ◌≡◌, refl, ap, ◌∙◌, ◌⊎◌, Bool, true, false, List, [], ◌∷◌, ◌++◌, Option, none, some,
  length, length-append, Result, ok, err, if_elim, ltb, ltb→lt, arith, Bool-cases, inl, inr,
}
use rustasgi.Python.{PyErr, raised}
use rustasgi.Sink.{
  Sent, sent, full, closed, SendLaws, Mpsc, Sink, Reply, accepted, parked, refused, still_waiting,
  received,
}
use rustasgi.Sink.Push.{Kind, offered, offer, push, polled, resume}

-- The events that a move takes from the application, and those it hands to the receiver.
abbrev pub taken : {E : Type 0} → Reply E → List E
taken (accepted e) = e ∷ []
taken (parked e) = e ∷ []
taken _ = []

abbrev pub given : {E : Type 0} → Reply E → List E
given (received (some e)) = e ∷ []
given _ = []

abbrev pub all_taken : {E : Type 0} → List (Reply E) → List E
all_taken [] = []
all_taken (r ∷ rs) = taken r ++ all_taken rs

abbrev pub all_given : {E : Type 0} → List (Reply E) → List E
all_given [] = []
all_given (r ∷ rs) = given r ++ all_given rs

abbrev pub to_list : {E : Type 0} → Option E → List E
to_list none = []
to_list (some e) = e ∷ []

module _ {E : Type 0} {bound : ℕ} (M : Mpsc E bound) (kind : Kind E) where
  -- The events on their way, oldest first: those in the channel, then the one that waits for room.
  abbrev pub queued : Sink M → List E
  queued s = M.buffered s.channel ++ to_list s.waiting

  abbrev pub is_open : Sink M → Bool
  is_open s = M.is_open s.channel

  -- What one move leaves, while the receiver lives.
  pub record Keeps (s s1 : Sink M) (r : Reply E) : Type 0 where
    pub fifo : queued s ++ taken r ≡ given r ++ queued s1
    pub bounded : length (M.buffered s.channel) ≤ bound → length (M.buffered s1.channel) ≤ bound
    pub opened : is_open s1 ≡ true

  -- Both ways in which an open channel answers a send.
  abbrev Sends : M.State → E → M.State × Sent E → Type 0
  Sends s e p =
      ((p.1 ≡ sent)
        × (M.buffered p.0 ≡ M.buffered s ++ e ∷ [])
        × (M.is_open p.0 ≡ true)
        × (length (M.buffered s) < bound))
      ⊎ (p ≡ (s, full e))

  send-Sends :
      (op : M.State → E → M.State × Sent E) (s : M.State) (e : E)
      → SendLaws E M.State bound M.is_open M.buffered op
      → M.is_open s ≡ true
      → Sends s e (op s e)
  send-Sends op s e laws o = elim (Bool-cases (ltb (length (M.buffered s)) bound)) [
    | inl fits ↦ let r = laws.room s e o (ltb→lt _ _ fits) in inl (r.0, r.1, r.2, ltb→lt _ _ fits)
    | inr is_full ↦ inr (laws.no_room s e o (ground arith))
  ]

  pub unmoved-Keeps :
      (s s1 : Sink M) (r : Reply E)
      → is_open s ≡ true
      → s1.channel ≡ s.channel
      → to_list s.waiting ++ taken r ≡ to_list s1.waiting
      → given r ≡ []
      → Keeps s s1 r
  unmoved-Keeps s s1 r o same moved none_given = record {
    fifo =
        append_assoc (M.buffered s.channel) (to_list s.waiting) (taken r)
        ∙ rw (same, none_given, moved) refl;
    bounded = λ h. rw same h;
    opened = rw same o;
  }

  offered-Keeps :
      (spawns : Bool) (s : Sink M) (e : E) (p : M.State × Sent E)
      → is_open s ≡ true
      → s.waiting ≡ none
      → Sends s.channel e p
      → let (s1, r) =
          offered M kind spawns
            (record s { channel = p.0; metrics = kind.counts p.1 s.metrics })
            e
            p.1 in
        Keeps s s1 r
  unfolding offered
  offered-Keeps spawns s e (c, sent) o w (inl (_, put, o1, fits)) = record {
    fifo = rw (w, put, append-nil, append-nil) refl;
    bounded = rw (put, length-append) (λ h. omega arith);
    opened = o1;
  }
  offered-Keeps true s e (c, full e') o w (inr h) =
      unmoved-Keeps s _ (parked e') o (ap (λ q. q.0) h) (rw w refl) refl
  offered-Keeps false s e (c, full e') o w (inr h) =
      unmoved-Keeps s _ (refused raised) o (ap (λ q. q.0) h) (rw w refl) refl
  offered-Keeps spawns s e (c, full e') o w (inl (x, _, _, _)) = absurd cc
  offered-Keeps spawns s e (c, closed) o w (inl (x, _, _, _)) = absurd cc
  offered-Keeps spawns s e (c, sent) o w (inr h) = absurd cc
  offered-Keeps spawns s e (c, closed) o w (inr h) = absurd cc

  offer-Keeps :
      (spawns : Bool) (s : Sink M) (e : E)
      → is_open s ≡ true
      → s.waiting ≡ none
      → let (s1, r) = offer M kind spawns s e in Keeps s s1 r
  unfolding offer
  offer-Keeps spawns s e o w =
      offered-Keeps spawns s e (M.try_send s.channel e) o w
        (send-Sends M.try_send s.channel e M.try_send_laws o)

  pub push-Keeps :
      (spawns : Bool) (s : Sink M) (parsed : Result PyErr E)
      → is_open s ≡ true
      → s.waiting ≡ none
      → let (s1, r) = push M kind spawns s parsed in Keeps s s1 r
  unfolding push
  push-Keeps spawns s (err x) o w =
      if_elim (λ (p : Sink M × Reply E). Keeps s p.0 p.1) s.disconnected
        (unmoved-Keeps s s (refused kind.after_disconnect) o refl (append-nil _) refl)
        (unmoved-Keeps s s (refused x) o refl (append-nil _) refl)
  push-Keeps spawns s (ok e) o w =
      if_elim (λ (p : Sink M × Reply E). Keeps s p.0 p.1) s.disconnected
        (unmoved-Keeps s s (refused kind.after_disconnect) o refl (append-nil _) refl)
        (offer-Keeps spawns s e o w)

  polled-Keeps :
      (s : Sink M) (e : E) (p : M.State × Sent E)
      → is_open s ≡ true
      → s.waiting ≡ some e
      → Sends s.channel e p
      → let (s1, r) = polled M kind (record s { channel = p.0 }) p.1 in Keeps s s1 r
  unfolding polled
  polled-Keeps s e (c, sent) o w (inl (_, put, o1, fits)) = record {
    fifo = rw (w, put, append-nil) refl;
    bounded = rw (put, length-append) (λ h. omega arith);
    opened = o1;
  }
  polled-Keeps s e (c, full e') o w (inr h) =
      unmoved-Keeps s _ still_waiting o (ap (λ q. q.0) h) (rw w (cc)) refl
  polled-Keeps s e (c, full e') o w (inl (x, _, _, _)) = absurd cc
  polled-Keeps s e (c, closed) o w (inl (x, _, _, _)) = absurd cc
  polled-Keeps s e (c, sent) o w (inr h) = absurd cc
  polled-Keeps s e (c, closed) o w (inr h) = absurd cc

  pub resume-Keeps :
      (s : Sink M) (e : E)
      → is_open s ≡ true
      → s.waiting ≡ some e
      → let (s1, r) = resume M kind s e in Keeps s s1 r
  unfolding resume
  resume-Keeps s e o w =
      polled-Keeps s e (M.poll_send s.channel e) o w
        (send-Sends M.poll_send s.channel e M.poll_send_laws o)

  pub recv-Keeps :
      (s : Sink M)
      → is_open s ≡ true
      → let (c, e) = M.recv s.channel in Keeps s (record s { channel = c }) (received e)
  recv-Keeps s o = go (M.buffered s.channel) refl
    where
      go :
          (es : List E)
          → M.buffered s.channel ≡ es
          → let (c, e) = M.recv s.channel in Keeps s (record s { channel = c }) (received e)
      go [] h =
          rw (M.recv_none s.channel o h)
            (record { fifo = append-nil _; bounded = λ k. k; opened = o })
      go (e ∷ es) h =
          let r = M.recv_first s.channel e es o h in
          record {
            fifo = rw (r.0, r.1, h) (append-nil _);
            bounded = rw (r.1, h) (λ k. omega arith);
            opened = r.2;
          }
