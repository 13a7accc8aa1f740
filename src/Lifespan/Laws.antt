-- ===== src/Lifespan/Laws.antt =====
-- When a worker starts to serve (src/lifespan.rs, src/lib.rs).
use rustasgi.Base.{
  ◌≡◌, ◌≢◌, refl, true, false, ◌||◌, List, [], ◌∷◌, ◌++◌, Option, none, some, All, arith,
  Bool-cases, inl, inr, if◌then◌else◌, ok, err,
}
use rustasgi.Python.{PyApi}
use rustasgi.Message.{get_or}
use Prim.Native.String.{String}
use text.Mathlib.Text.{◌==◌ as str_eq}
use text.Mathlib.TextEquality.{eq_iff}
use rustasgi.Lifespan.{
  Decision, serve_managed, failed, unexpected_reply, LifespanMode, off, auto, on, unsupported,
  Steps, Poll, race, read_reply, text_at, prepare, startup, serve_plain, fatal, lifespan_phase,
}

module _ (py : PyApi) where
  open py use {Obj, get_item, extract_str}

  -- Nothing is ready in this poll.
  abbrev pub IsQuiet : Poll py → Type 0
  IsQuiet p = (p.get ≡ none) × (p.app_exited ≡ false) × (p.timed_out ≡ false)

  race-quiet :
      (ps : List (Poll py)) (p : Poll py) (qs : List (Poll py))
      → All IsQuiet ps
      → race py (ps ++ p ∷ qs) ≡ race py (p ∷ qs)
  unfolding race
  race-quiet [] p qs h = refl
  race-quiet (r ∷ ps) p qs (q, h) = ground (arith, race-quiet ps p qs h)

  -- If all steps up to the startup message succeed, the first poll in which something is ready
  -- decides, and in it a reply counts before the application's end and before the timeout.
  pub startup-first :
      (s : Steps) (ps qs : List (Poll py)) (p : Poll py) (reply : Option Obj)
      → prepare py s ≡ ok tt
      → All IsQuiet ps
      → p.get ≡ some reply
      → startup py s (ps ++ p ∷ qs) ≡ some (read_reply py (some reply))
  unfolding startup race
  startup-first s ps qs p reply ready quiet got = ground (arith, race-quiet ps p qs quiet)

  -- Without a reply the application's end, or the timeout, means that lifespan is not supported:
  -- fatal in the mode `on`, while `auto` serves without it.
  pub startup-unanswered :
      (s : Steps) (ps qs : List (Poll py)) (p : Poll py)
      → prepare py s ≡ ok tt
      → All IsQuiet ps
      → p.get ≡ none
      → (p.app_exited || p.timed_out) ≡ true
      → (lifespan_phase py auto s (ps ++ p ∷ qs) ≡ some serve_plain)
        × (lifespan_phase py on s (ps ++ p ∷ qs)
            ≡ some (fatal (unsupported "app exited without a lifespan reply (or timed out)")))
  unfolding startup race lifespan_phase read_reply
  startup-unanswered s ps qs p ready quiet got over =
      (ground (arith, race-quiet ps p qs quiet), ground (arith, race-quiet ps p qs quiet))

  -- A reply of this type.
  abbrev pub Says : Obj → String → Type 0
  Says msg t = (o : Obj) × (get_item msg "type" ≡ some o) × (extract_str o ≡ some t)

  -- The text that a failure comes with.
  abbrev pub reason_of : Obj → String
  reason_of msg = elim (get_item msg "message") [
    | none ↦ "unknown"
    | some o ↦ elim (extract_str o) [ none ↦ "unknown" | some t ↦ t ]
  ]

  -- What the protocol asks of a worker that gets a reply to its startup message, unless lifespan is off.
  pub data Follows : LifespanMode → Obj → Decision py → Type 0 where
    completed :
        (mode : LifespanMode) (msg : Obj)
        → Says msg "lifespan.startup.complete"
        → Follows mode msg (serve_managed (get_item msg "state"))
    refused :
        (mode : LifespanMode) (msg : Obj)
        → Says msg "lifespan.startup.failed"
        → Follows mode msg (fatal (failed (reason_of msg)))
    tolerated :
        (msg : Obj) (t : String)
        → Says msg t
        → t ≢ "lifespan.startup.complete"
        → t ≢ "lifespan.startup.failed"
        → Follows auto msg serve_plain
    insisted :
        (msg : Obj) (t : String)
        → Says msg t
        → t ≢ "lifespan.startup.complete"
        → t ≢ "lifespan.startup.failed"
        → Follows on msg (fatal (unexpected_reply t))

  -- Every step up to the startup message succeeds.
  abbrev pub AllSucceed : Steps → Type 0
  AllSucceed s =
      (s.init_call ≡ true)
      × (s.init_submit ≡ true)
      × (s.init_done ≡ true)
      × (s.extracted ≡ true)
      × (s.scope_built ≡ true)
      × (s.app_called ≡ true)
      × (s.app_submitted ≡ true)
      × (s.put ≡ ok tt)

  prepare-ok : (s : Steps) → AllSucceed s → prepare py s ≡ ok tt
  unfolding prepare
  prepare-ok s (a, b, c, d, e, f, g, h) = rw (a, b, c, d, e, f, g, h) refl

  text_at-reason : (msg : Obj) → get_or (text_at py msg "message") "unknown" ≡ reason_of msg
  unfolding text_at
  text_at-reason msg = ground arith

  text_at-Says : (msg : Obj) (t : String) → Says msg t → text_at py msg "type" ≡ some t
  unfolding text_at
  text_at-Says msg t (o, got, text) = rw (got, text_at) text

  read_reply-Says :
      (msg : Obj) (t : String)
      → Says msg t
      → read_reply py (some (some msg)) ≡ (
          if str_eq t "lifespan.startup.complete"
          then ok (get_item msg "state")
          else if str_eq t "lifespan.startup.failed"
          then err (failed (reason_of msg))
          else err (unexpected_reply t))
  unfolding read_reply
  read_reply-Says msg t says = rw (text_at-Says msg t says, text_at-reason msg) refl

  differs : (s t : String) → s ≢ t → str_eq s t ≡ false
  differs s t h = elim (Bool-cases (str_eq s t)) [
    | inl same ↦ absurd (h ((eq_iff s t).0 same))
    | inr other ↦ other
  ]

  decided :
      (mode : LifespanMode) (s : Steps) (polls : List (Poll py)) (msg : Obj) (d : Decision py)
      → mode ≢ off
      → startup py s polls ≡ some (read_reply py (some (some msg)))
      → Follows mode msg d
      → lifespan_phase py mode s polls ≡ some d
  unfolding lifespan_phase
  decided off s polls msg d h e f = absurd (h refl)
  decided auto s polls msg d h e (completed auto m says) = rw (e, read_reply-Says msg _ says) refl
  decided on s polls msg d h e (completed on m says) = rw (e, read_reply-Says msg _ says) refl
  decided auto s polls msg d h e (refused auto m says) = rw (e, read_reply-Says msg _ says) refl
  decided on s polls msg d h e (refused on m says) = rw (e, read_reply-Says msg _ says) refl
  decided auto s polls msg d h e (tolerated m t says x y) =
      rw (e, read_reply-Says msg t says, differs t _ x, differs t _ y) refl
  decided on s polls msg d h e (insisted m t says x y) =
      rw (e, read_reply-Says msg t says, differs t _ x, differs t _ y) refl

  -- Unless lifespan is off, and once the startup message is sent, the first reply of the application
  -- decides, even if the application has ended or the time is over when it is read: a reply that says
  -- complete starts the worker with the state that comes with it; one that says failed ends it with the
  -- application's reason, also in the mode `auto`; and any other type is as if lifespan were not
  -- supported, so that `auto` serves without it and `on` ends.
  pub lifespan_phase-Follows :
      (mode : LifespanMode) (s : Steps) (ps qs : List (Poll py)) (p : Poll py) (msg : Obj)
      (d : Decision py)
      → mode ≢ off
      → AllSucceed s
      → All IsQuiet ps
      → p.get ≡ some (some msg)
      → Follows mode msg d
      → lifespan_phase py mode s (ps ++ p ∷ qs) ≡ some d
  lifespan_phase-Follows mode s ps qs p msg d h ready quiet got f =
      decided mode s (ps ++ p ∷ qs) msg d h
        (startup-first s ps qs p (some msg) (prepare-ok s ready) quiet got) f
