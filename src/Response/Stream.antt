-- ===== src/Response/Stream.antt =====
-- src/server.rs, `handle_http`: the spawned task that forwards the response body, feeds what is left
-- of the request body, and observes the application's end.
use rustasgi.Base.{
  is_empty, ℕ, ◌+◌, ◌%◌, ◌^◌, Bool, true, false, not, ◌&&◌, List, [], ◌∷◌, ◌++◌, Option, none, some,
  length, if◌then◌else◌,
}
use rustasgi.Message.{ResponseEvent, start, body}
use rustasgi.Response.{
  Ready, Effect, log_access, feed_disconnect, spawn_reaper, drop_guard, Turn, again, done, report,
}

pub record Pump : Type 0 where
  pub is_head : Bool
  -- The chunks given to the client, oldest first.
  pub sent : List (List ℕ)
  pub bytes_sent : ℕ
  pub feeding : Bool
  pub streaming : Bool
  pub app_done : Bool
  pub app_logged : Bool
  -- The flag that makes a later `send()` of the application raise `OSError`.
  pub disconnected : Bool
  pub effects : List Effect

-- `bytes_sent += data.len() as u64`.
abbrev pub add_u64 : ℕ → ℕ → ℕ
add_u64 a b = (a + b) % 2 ^ 64

abbrev pub Step : Type 0
Step = Turn Pump (Unit {0})

abbrev stop_unless : Bool → Pump → Step
stop_unless more s = if more then again s else done s tt

on_body : Pump → List ℕ → Bool → Bool → Step
on_body s content more client_gone =
    if not s.is_head && not (is_empty content)
    then (if client_gone
        then done
            (record s {
              bytes_sent = add_u64 s.bytes_sent (length content);
              disconnected = true;
              effects = s.effects ++ feed_disconnect ∷ [];
            })
            tt
        else stop_unless more (record s {
          bytes_sent = add_u64 s.bytes_sent (length content);
          sent = s.sent ++ content ∷ [];
        }))
    else stop_unless more
        (if s.is_head then record s { bytes_sent = add_u64 s.bytes_sent (length content) } else s)

on_event : Pump → Option ResponseEvent → Bool → Step
on_event s (some (start _ _)) gone = again s
on_event s (some (body content more)) gone = on_body s content more gone
on_event s none gone = done s tt

on_app : Pump → Bool → Step
on_app s raised = again (record s {
  app_done = true;
  app_logged = true;
  effects = s.effects ++ report s.app_logged raised;
})

on_fed : Pump → Bool → Step
on_fed s fed = again (record s { feeding = fed; streaming = s.streaming && fed })

deadline_branch : Pump → Bool → Step
deadline_branch s passed = if passed then done s tt else again s

feed_branch : Pump → Option Bool → Bool → Step
feed_branch s (some fed) passed =
    if s.streaming && s.feeding then on_fed s fed else deadline_branch s passed
feed_branch s none passed = deadline_branch s passed

app_branch : Pump → Option Bool → Option Bool → Bool → Step
app_branch s (some raised) fed passed =
    if s.app_done then feed_branch s fed passed else on_app s raised
app_branch s none fed passed = feed_branch s fed passed

recv_branch : Pump → Option (Option ResponseEvent) → Ready → Step
recv_branch s (some event) r = on_event s event r.client_gone
recv_branch s none r = app_branch s r.app r.fed r.deadline

unfoldable pub pump_turn : Pump → Ready → Step
unfolding recv_branch app_branch feed_branch deadline_branch on_event on_body on_app on_fed
pump_turn s r = recv_branch s r.recv r

unfoldable pub pump : Pump → List Ready → Step
pump s [] = again s
pump s (r ∷ rs) = elim (pump_turn s r) [ again s' ↦ pump s' rs | done s' u ↦ done s' u ]

-- Behind the loop: the application's future is polled once if its end was not seen, and left to a
-- reaper if it is pending; then the access log is called and the in-flight guard dropped.
unfoldable pub settle_app : Pump → Option Bool → Pump
settle_app s (some raised) =
    if s.app_done
    then s
    else record s { app_logged = true; effects = s.effects ++ report s.app_logged raised }
settle_app s none =
    if s.app_done then s else record s { effects = s.effects ++ spawn_reaper false ∷ [] }

unfoldable pub finish : ℕ → Pump → Option Bool → Pump
unfolding settle_app
finish status s poll =
    let t = settle_app s poll in
    record t { effects = t.effects ++ log_access status t.bytes_sent ∷ drop_guard ∷ [] }
