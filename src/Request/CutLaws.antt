-- ===== src/Request/CutLaws.antt =====
-- What the application receives of a request's body when steps of the feeding are dropped
-- (src/server.rs, `handle_http` with `feed_step`).
use mathlib.Core.List.{append-nil, append_assoc}
use rustasgi.Base.{
  refl, ℕ, ◌+◌, ◌≡◌, ap, ◌∙◌, true, false, List, [], ◌∷◌, ◌++◌, All, if◌then◌else◌, arith,
}
use rustasgi.Request.Feed.{
  BodyFrame, data_frame, trailers, failed, end_of_body, Inbound, request, disconnect, Arrival, Poll,
  completes, waits, cut, cut_disconnect, feed_poll, feed_polls,
}
use rustasgi.Request.FeedLaws.{is_last, IsTaken, message_of, step-taken, step-last}

-- Steps inside the body whose messages the queue takes, also of those that are dropped.
abbrev pub IsKept : Poll → Type 0
IsKept (completes a) = IsTaken a
IsKept waits = Unit
IsKept (cut frame lands) = lands ≡ true
IsKept (cut_disconnect lands) = lands ≡ false

-- The messages of a frame, the last one included.
abbrev pub all_of : BodyFrame → List Inbound
all_of frame = if is_last frame then request [] false ∷ [] else message_of frame

abbrev pub told : Poll → List Inbound
told (completes a) = message_of a.frame
told waits = []
told (cut frame lands) = all_of frame
told (cut_disconnect lands) = []

abbrev pub all_told : List Poll → List Inbound
all_told [] = []
all_told (p ∷ early) = told p ++ all_told early

-- The messages that say that no more follows, and the steps that are dropped when they say it.
abbrev pub is_terminal : Inbound → ℕ
is_terminal (request _ more) = if more then 0 else 1
is_terminal disconnect = 0

abbrev pub terminals : List Inbound → ℕ
terminals [] = 0
terminals (m ∷ ms) = is_terminal m + terminals ms

abbrev pub is_late_cut : Poll → ℕ
is_late_cut (cut frame lands) = if is_last frame then 1 else 0
is_late_cut _ = 0

abbrev pub late_cuts : List Poll → ℕ
late_cuts [] = 0
late_cuts (p ∷ early) = is_late_cut p + late_cuts early

terminals-append : (xs ys : List Inbound) → terminals (xs ++ ys) ≡ terminals xs + terminals ys
terminals-append [] ys = omega arith
terminals-append (x ∷ xs) ys = omega (arith, terminals-append xs ys)

poll-kept :
    (p : Poll) (queue : List Inbound)
    → IsKept p
    → ((feed_poll p queue).1 ≡ true) × ((feed_poll p queue).0 ≡ queue ++ told p)
unfolding feed_poll
poll-kept (completes a) queue h = step-taken a queue h
poll-kept waits queue h = (refl, cc (append-nil queue))
poll-kept (cut (data_frame content) lands) queue h = (refl, ground (arith, append-nil queue))
poll-kept (cut trailers lands) queue h = (refl, cc (append-nil queue))
poll-kept (cut failed lands) queue h = (refl, ground arith)
poll-kept (cut end_of_body lands) queue h = (refl, ground arith)
poll-kept (cut_disconnect lands) queue h = (refl, ground (arith, append-nil queue))

terminals-told : (p : Poll) → IsKept p → terminals (told p) ≡ is_late_cut p
terminals-told (completes a) h = ground arith
terminals-told waits h = refl
terminals-told (cut (data_frame content) lands) h = ground arith
terminals-told (cut trailers lands) h = refl
terminals-told (cut failed lands) h = refl
terminals-told (cut end_of_body lands) h = refl
terminals-told (cut_disconnect lands) h = refl

terminals-all_told :
    (early : List Poll) → All IsKept early → terminals (all_told early) ≡ late_cuts early
terminals-all_told [] h = refl
terminals-all_told (p ∷ early) (k, h) = omega (
  arith,
  terminals-append (told p) (all_told early),
  terminals-told p k,
  terminals-all_told early h,
)

polls-last :
    (a : Arrival) (bs : List Poll) (queue : List Inbound)
    → is_last a.frame ≡ true
    → a.put_ok ≡ true
    → feed_polls (completes a ∷ bs) queue ≡ (queue ++ request [] false ∷ [], false)
unfolding feed_polls feed_poll
polls-last a bs queue l p = rw (step-last a queue l p) refl

polls-kept :
    (early bs : List Poll) (a : Arrival) (queue : List Inbound)
    → All IsKept early
    → is_last a.frame ≡ true
    → a.put_ok ≡ true
    → feed_polls (early ++ completes a ∷ bs) queue
      ≡ (queue ++ all_told early ++ request [] false ∷ [], false)
unfolding feed_polls
polls-kept [] bs a queue h l p =
    polls-last a bs queue l p ∙ ap (λ q. (q, false)) (cc (append-nil queue))
polls-kept (b ∷ early) bs a queue (t, h) l p =
    let (more, next) = poll-kept b queue t in
    rw (more, next)
      (polls-kept early bs a (queue ++ told b) h l p
        ∙ ap (λ q. (q, false)) (cc (append_assoc queue (told b) (all_told early))))

-- Where the queue takes every message, the application gets the data frames of the body once and in
-- their order, whether steps complete or are dropped, and then the message that says that no more
-- follows: once, and once more for each step that is dropped while it puts that message.
pub feed_polls-messages :
    (early bs : List Poll) (a : Arrival) (queue : List Inbound)
    → All IsKept early
    → is_last a.frame ≡ true
    → a.put_ok ≡ true
    → (feed_polls (early ++ completes a ∷ bs) queue
        ≡ (queue ++ all_told early ++ request [] false ∷ [], false))
      × (terminals (all_told early ++ request [] false ∷ []) ≡ late_cuts early + 1)
feed_polls-messages early bs a queue h l p = (
  polls-kept early bs a queue h l p,
  omega (
    arith,
    terminals-append (all_told early) (request [] false ∷ []),
    terminals-all_told early h,
  ),
)
