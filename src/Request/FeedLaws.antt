-- ===== src/Request/FeedLaws.antt =====
-- What the application receives of a request's body (src/server.rs, `feed_step`).
use mathlib.Core.List.{append-nil, append_assoc}
use rustasgi.Base.{
  ◌≡◌, ap, ◌∙◌, Bool, true, false, List, [], ◌∷◌, ◌++◌, All, if◌then◌else◌, is_empty, arith,
}
use rustasgi.Request.Feed.{
  BodyFrame, data_frame, failed, end_of_body, Inbound, request, Arrival, feed_step, feed_body,
}

-- The end of the body, or an error while it is read.
abbrev pub is_last : BodyFrame → Bool
is_last failed = true
is_last end_of_body = true
is_last _ = false

-- A frame inside the body whose message the queue takes.
abbrev pub IsTaken : Arrival → Type 0
IsTaken a = (is_last a.frame ≡ false) × (a.put_ok ≡ true)

-- The messages for the data frames that are not empty.
abbrev pub message_of : BodyFrame → List Inbound
message_of (data_frame content) = if is_empty content then [] else request content true ∷ []
message_of _ = []

abbrev messages : List Arrival → List Inbound
messages [] = []
messages (a ∷ early) = message_of a.frame ++ messages early

pub step-taken :
    (a : Arrival) (queue : List Inbound)
    → IsTaken a
    → ((feed_step a queue).1 ≡ true) × ((feed_step a queue).0 ≡ queue ++ message_of a.frame)
unfolding feed_step
step-taken a queue h = (ground arith, ground (arith, append-nil queue))

pub step-last :
    (a : Arrival) (queue : List Inbound)
    → is_last a.frame ≡ true
    → a.put_ok ≡ true
    → feed_step a queue ≡ (queue ++ request [] false ∷ [], false)
unfolding feed_step
step-last a queue l p = ground arith

-- Where the queue takes every message, the application gets the data frames of the body in their
-- order, empty frames and trailers left out, then one message that says that no more follows, and
-- nothing behind it; and that is so for a body that ends and for one whose reading fails.
feed_body-messages :
    (early bs : List Arrival) (a : Arrival) (queue : List Inbound)
    → All IsTaken early
    → is_last a.frame ≡ true
    → a.put_ok ≡ true
    → feed_body (early ++ a ∷ bs) queue ≡ (queue ++ messages early ++ request [] false ∷ [], false)
unfolding feed_body
feed_body-messages [] bs a queue h l p = rw (step-last a queue l p) (cc (append-nil queue))
feed_body-messages (b ∷ early) bs a queue (t, h) l p =
    let (more, next) = step-taken b queue t in
    rw (more, next)
      (feed_body-messages early bs a (queue ++ message_of b.frame) h l p
        ∙ ap (λ q. (q, false)) (cc (append_assoc queue (message_of b.frame) (messages early))))
