-- ===== src/Request/Feed.antt =====
-- src/server.rs: `feed_step`, and the loop over it in `handle_http` that feeds a request's body to
-- the application (`feeding = fed`).
use rustasgi.Base.{ℕ, Bool, true, false, List, [], ◌∷◌, ◌++◌, if◌then◌else◌, is_empty}

-- What `body.frame()` gives: data, trailers, an error, or the end.
pub data BodyFrame : Type 0 where
  data_frame : List ℕ → BodyFrame
  trailers : BodyFrame
  failed : BodyFrame
  end_of_body : BodyFrame

-- The messages that are put into the application's queue.
pub data Inbound : Type 0 where
  request : (content : List ℕ) (more_body : Bool) → Inbound
  disconnect : Inbound

-- One step meets a frame; `feed_message` and `feed_disconnect` succeed or not.
pub record Arrival : Type 0 where
  pub frame : BodyFrame
  pub put_ok : Bool
  pub disconnect_ok : Bool

abbrev put_if : Bool → Inbound → List Inbound → List Inbound
put_if ok m queue = if ok then queue ++ m ∷ [] else queue

feed_data : List ℕ → Arrival → List Inbound → List Inbound × Bool
feed_data content a queue =
    if is_empty content
    then (queue, true)
    else if a.put_ok
    then (queue ++ request content true ∷ [], true)
    else (put_if a.disconnect_ok disconnect queue, false)

step_on : BodyFrame → Arrival → List Inbound → List Inbound × Bool
step_on (data_frame content) a queue = feed_data content a queue
step_on trailers a queue = (queue, true)
step_on failed a queue = (put_if a.put_ok (request [] false) queue, false)
step_on end_of_body a queue = (put_if a.put_ok (request [] false) queue, false)

-- The queue after the step, and whether the feeding goes on.
unfoldable pub feed_step : Arrival → List Inbound → List Inbound × Bool
unfolding step_on feed_data
feed_step a queue = step_on a.frame a queue

-- The steps of one request, as far as the list goes.
unfoldable pub feed_body : List Arrival → List Inbound → List Inbound × Bool
unfolding feed_step
feed_body [] queue = (queue, true)
feed_body (a ∷ early) queue =
    let (next, fed) = feed_step a queue in
    let rest = feed_body early next in if fed then rest else (next, false)

-- What becomes of one step that the select polls. When another branch is ready first, the step's
-- future is dropped; a put that it has submitted to the loop by then may still land in the queue.
pub data Poll : Type 0 where
  completes : Arrival → Poll
  -- Dropped while it awaits the body's next frame.
  waits : Poll
  -- Dropped while it awaits the put of this frame's message.
  cut : (frame : BodyFrame) (lands : Bool) → Poll
  -- Dropped while it awaits `feed_disconnect`, behind a put that failed.
  cut_disconnect : (lands : Bool) → Poll

-- The message of a frame, and what is left of a step that is dropped in its put.
cut_put : BodyFrame → Bool → List Inbound → List Inbound
cut_put (data_frame content) lands queue =
    if is_empty content then queue else put_if lands (request content true) queue
cut_put trailers lands queue = queue
cut_put failed lands queue = put_if lands (request [] false) queue
cut_put end_of_body lands queue = put_if lands (request [] false) queue

-- Only a step that completes changes `feeding` and `body_opt`.
unfoldable pub feed_poll : Poll → List Inbound → List Inbound × Bool
unfolding feed_step cut_put
feed_poll (completes a) queue = feed_step a queue
feed_poll waits queue = (queue, true)
feed_poll (cut frame lands) queue = (cut_put frame lands queue, true)
feed_poll (cut_disconnect lands) queue = (put_if lands disconnect queue, true)

-- The steps of one request with those that are dropped, as far as the list goes.
unfoldable pub feed_polls : List Poll → List Inbound → List Inbound × Bool
unfolding feed_poll
feed_polls [] queue = (queue, true)
feed_polls (p ∷ early) queue =
    let (next, fed) = feed_poll p queue in
    let rest = feed_polls early next in if fed then rest else (next, false)
