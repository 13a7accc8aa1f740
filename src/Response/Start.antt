-- ===== src/Response/Start.antt =====
-- src/server.rs, `handle_http`: the loop that awaits the start of the response.
use rustasgi.Base.{
  ℕ, Bool, true, false, ◌&&◌, List, [], ◌∷◌, ◌++◌, Option, none, some, if◌then◌else◌,
}
use rustasgi.Message.{Header, ResponseEvent, start, body}
use rustasgi.Response.{
  Ready, Effect, log_access, feed_disconnect, spawn_reaper, Turn, again, done, report,
}

pub record Waiting : Type 0 where
  pub app_done : Bool
  pub app_logged : Bool
  pub feeding : Bool
  -- `body_opt.is_some()`.
  pub streaming : Bool
  pub effects : List Effect

-- The loop's end: the start event, or a `return status_response(500, ..)`.
pub data Answer : Type 0 where
  started : (status : ℕ) (headers : List Header) → Answer
  refused : Answer

unfoldable pub waiting : Bool → Waiting
waiting has_body = record {
  app_done = false;
  app_logged = false;
  feeding = has_body;
  streaming = has_body;
  effects = [];
}

abbrev add : Waiting → List Effect → Waiting
add s es = record s { effects = s.effects ++ es }

on_event : Waiting → Option ResponseEvent → Turn Waiting Answer
on_event s (some (start status headers)) = done s (started status headers)
on_event s (some (body _ _)) = done (add s (feed_disconnect ∷ spawn_reaper s.app_done ∷ [])) refused
on_event s none = done (add s (log_access 500 0 ∷ spawn_reaper s.app_done ∷ [])) refused

on_app : Waiting → Bool → Turn Waiting Answer
on_app s raised = again (record s {
  app_done = true;
  app_logged = true;
  effects = s.effects ++ report s.app_logged raised;
})

on_fed : Waiting → Bool → Turn Waiting Answer
on_fed s fed = again (record s { feeding = fed; streaming = s.streaming && fed })

on_deadline : Waiting → Turn Waiting Answer
on_deadline s = done (add s (log_access 500 0 ∷ spawn_reaper s.app_done ∷ [])) refused

-- The branches below the first, which are polled in this order if those above are pending.
deadline_branch : Waiting → Bool → Turn Waiting Answer
deadline_branch s passed = if passed then on_deadline s else again s

feed_branch : Waiting → Option Bool → Bool → Turn Waiting Answer
feed_branch s (some fed) passed =
    if s.streaming && s.feeding then on_fed s fed else deadline_branch s passed
feed_branch s none passed = deadline_branch s passed

app_branch : Waiting → Option Bool → Option Bool → Bool → Turn Waiting Answer
app_branch s (some raised) fed passed =
    if s.app_done then feed_branch s fed passed else on_app s raised
app_branch s none fed passed = feed_branch s fed passed

recv_branch : Waiting → Option (Option ResponseEvent) → Ready → Turn Waiting Answer
recv_branch s (some event) r = on_event s event
recv_branch s none r = app_branch s r.app r.fed r.deadline

-- One turn of the select: the first branch that is enabled and ready. With none the task parks.
unfoldable pub start_turn : Waiting → Ready → Turn Waiting Answer
unfolding recv_branch app_branch feed_branch deadline_branch on_event on_app on_fed on_deadline
start_turn s r = recv_branch s r.recv r

-- The loop, over what successive polls find; `again` when these end before the loop does.
unfoldable pub await_start : Waiting → List Ready → Turn Waiting Answer
await_start s [] = again s
await_start s (r ∷ rs) = elim (start_turn s r) [
  | again s' ↦ await_start s' rs
  | done s' a ↦ done s' a
]
