-- ===== src/Response/RespondLaws.antt =====
-- Each request is handed to the access log, reported and released once (src/server.rs, `handle_http`).
use mathlib.Core.Path.{subst}
use rustasgi.Base.{ℕ, ◌≤◌, ◌≡◌, refl, Bool, List, [], ◌∷◌, ◌++◌, Option, some, arith}
use rustasgi.Response.{
  Effect, drop_guard, Turn, again, done, outcome, state_of, count_by, count_by-append, is_report,
  is_log, is_reaper, is_drop,
}
use rustasgi.Response.Start.{Waiting, Answer, started, refused, waiting, await_start}
use rustasgi.Response.Stream.{Step, pump, finish}
use rustasgi.Response.Respond.{Script, enter, reap, deliver, conclude, respond}
use rustasgi.Response.Accounting.{
  IsOpen, IsRefused, IsFinished, Ends, await_start-Ends, pump-IsOpen, finish-IsFinished,
  drain_reaper-reports, reap-reports, reap-counts,
}

-- What holds of a request that is over.
pub record IsSettled (es : List Effect) : Type 0 where
  pub reports : count_by is_report es ≤ 1
  pub logs : count_by is_log es ≤ 1
  pub drops : count_by is_drop es ≡ 1

refused-IsSettled :
    (logged : Bool) (reaped : Option Bool) (es : List Effect)
    → IsRefused logged es
    → IsSettled (reap logged reaped (es ++ drop_guard ∷ []))
refused-IsSettled logged reaped es h =
    let fs = es ++ drop_guard ∷ [] in
    ground (
      arith,
      reap-reports logged reaped fs,
      reap-counts is_log logged reaped (drain_reaper-reports logged reaped).1 fs,
      reap-counts is_drop logged reaped (drain_reaper-reports logged reaped).2 fs,
      count_by-append is_report es (drop_guard ∷ []),
      count_by-append is_log es (drop_guard ∷ []),
      count_by-append is_reaper es (drop_guard ∷ []),
      count_by-append is_drop es (drop_guard ∷ []),
    )

-- A request whose response has started is handed to the access log once and releases the in-flight guard once.
pub record IsDelivered (es : List Effect) : Type 0 where
  pub reports : count_by is_report es ≤ 1
  pub logs : count_by is_log es ≡ 1
  pub drops : count_by is_drop es ≡ 1

finished-IsDelivered :
    (logged : Bool) (reaped : Option Bool) (es : List Effect)
    → IsFinished logged es
    → IsDelivered (reap logged reaped es)
finished-IsDelivered logged reaped es h = ground (
  arith,
  reap-reports logged reaped es,
  reap-counts is_log logged reaped (drain_reaper-reports logged reaped).1 es,
  reap-counts is_drop logged reaped (drain_reaper-reports logged reaped).2 es,
)

deliver-IsDelivered :
    (status : ℕ) (s : Script) (t : Step) {n : ℕ} {es : List Effect}
    → IsOpen (state_of t).app_done (state_of t).app_logged (state_of t).effects
    → deliver status s t ≡ some (n, es)
    → (n ≡ status) × IsDelivered es
unfolding deliver
deliver-IsDelivered status s (again p) o e = cc
deliver-IsDelivered status s (done p u) {n} {es} o e =
    let q = finish status p s.poll in
    let all : IsDelivered (reap q.app_logged s.reaped q.effects) =
      finished-IsDelivered q.app_logged s.reaped q.effects (finish-IsFinished status p s.poll o) in
    (ground arith, subst IsDelivered (settled e) all)
  where
    settled :
        deliver status s (done p u) ≡ some (n, es)
        → reap (finish status p s.poll).app_logged s.reaped (finish status p s.poll).effects ≡ es
    settled e' = ground arith

waiting-IsOpen :
    (has_body : Bool) → let w = waiting has_body in IsOpen w.app_done w.app_logged w.effects
unfolding waiting
waiting-IsOpen has_body = ground arith

conclude-IsDelivered :
    (has_body is_head : Bool) (s : Script) (t : Turn Waiting Answer) {status n : ℕ}
    {headers : List (List ℕ × List ℕ)} {es : List Effect}
    → Ends t
    → outcome t ≡ some (started status headers)
    → conclude has_body is_head s t ≡ some (n, es)
    → (n ≡ status) × IsDelivered es
unfolding conclude enter
conclude-IsDelivered has_body is_head s (again w) o h e = cc
conclude-IsDelivered has_body is_head s (done w refused) o h e = cc
conclude-IsDelivered has_body is_head s (done w (started st hs)) o h e =
    let (same, all) =
      deliver-IsDelivered st s (pump (enter has_body is_head w) s.turns)
        (pump-IsOpen (enter has_body is_head w) s.turns o) e in
    (ground arith, all)

-- A request that is over, and whose application started the response, has ended with the status of
-- that start event; it is handed to the access log exactly once, its in-flight guard is dropped
-- exactly once, and the end of the application is reported at most once, by whichever of the task and the
-- reaper sees it.
pub respond-IsDelivered :
    (has_body is_head : Bool) (s : Script) (status n : ℕ) (headers : List (List ℕ × List ℕ))
    (es : List Effect)
    → outcome (await_start (waiting has_body) s.starts) ≡ some (started status headers)
    → respond has_body is_head s ≡ some (n, es)
    → (n ≡ status) × IsDelivered es
unfolding respond
respond-IsDelivered has_body is_head s status n headers es h e =
    conclude-IsDelivered has_body is_head s (await_start (waiting has_body) s.starts)
      (await_start-Ends (waiting has_body) s.starts (waiting-IsOpen has_body)) h e

conclude-IsSettled :
    (has_body is_head : Bool) (s : Script) (t : Turn Waiting Answer) {n : ℕ} {es : List Effect}
    → Ends t
    → conclude has_body is_head s t ≡ some (n, es)
    → IsSettled es
unfolding conclude
conclude-IsSettled has_body is_head s (again w) o e = cc
conclude-IsSettled has_body is_head s (done w refused) {es} o e =
    let same : reap w.app_logged s.reaped (w.effects ++ drop_guard ∷ []) ≡ es = ground arith in
    subst IsSettled same (refused-IsSettled w.app_logged s.reaped w.effects o)
conclude-IsSettled has_body is_head s (done w (started st hs)) o e =
    let (same, all) = conclude-IsDelivered has_body is_head s (done w (started st hs)) o refl e in
    ground arith

-- Whatever happens to a request, by the time it is over its application's end is reported at most
-- once, it is handed to the access log at most once, and its in-flight guard is dropped exactly once.
pub respond-IsSettled :
    (has_body is_head : Bool) (s : Script) (n : ℕ) (es : List Effect)
    → respond has_body is_head s ≡ some (n, es)
    → IsSettled es
unfolding respond
respond-IsSettled has_body is_head s n es e =
    conclude-IsSettled has_body is_head s (await_start (waiting has_body) s.starts)
      (await_start-Ends (waiting has_body) s.starts (waiting-IsOpen has_body)) e
