-- ===== src/Server/RequestLaws.antt =====
-- Every request releases its guard once (src/server.rs, `handle_request`).
use rustasgi.Base.{
  Bool, true, false, none, [], ◌∷◌, ◌++◌, ◌+◌, Option, length, if◌then◌else◌, ℕ, ◌≤◌, ◌≡◌, List,
  some, arith,
}
use rustasgi.Request.Front.{HttpRequest, Platform}
use rustasgi.Request.Upgrade.{Upgrade, reject, switch, Dispatch, upgrade, http, handle_request}
use rustasgi.Response.{Effect, again, done, count_by, is_report, is_log, is_drop}
use rustasgi.Response.Handle.{Context}
use rustasgi.Response.HandleLaws.{fewest, most, handle_front-IsHandled}
use rustasgi.Ws.Driver.{WsTurn, drive_websocket}
use rustasgi.Response.Head.{Entry, Logged, log_access_task}
use rustasgi.Server.Request.{
  access_lines, Events, close_connection, serve_upgrade, serve_dispatch, serve_request,
}

-- Access lines are wanted.
abbrev pub logs : Option (Entry → Bool) → Bool → Bool
logs (some hook) enabled = true
logs none enabled = enabled

length-log :
    (hook : Option (Entry → Bool)) (enabled : Bool) (e : Entry) (rest : List Logged)
    → length (log_access_task hook enabled e ++ rest)
      ≡ (if logs hook enabled then 1 else 0) + length rest
unfolding log_access_task
length-log (some hook) enabled e rest = omega arith
length-log none true e rest = omega arith
length-log none false e rest = omega arith

length-access_lines :
    (hook : Option (Entry → Bool)) (enabled : Bool) (entry : ℕ → ℕ → Entry) (es : List Effect)
    → length (access_lines hook enabled entry es)
      ≡ (if logs hook enabled then count_by is_log es else 0)
unfolding access_lines
length-access_lines hook enabled entry [] = ground arith
length-access_lines hook enabled entry (Effect.log_access status size ∷ es) = ground (
  arith,
  length-log hook enabled (entry status size) (access_lines hook enabled entry es),
  length-access_lines hook enabled entry es,
)
length-access_lines hook enabled entry (e ∷ es) =
    ground (arith, length-access_lines hook enabled entry es)

-- What holds of a request that is over, with the least and the most calls of the access log.
pub record IsSpent (fewest most : ℕ) (es : List Effect) : Type 0 where
  pub reports : count_by is_report es ≤ 1
  pub drops : count_by is_drop es ≡ 1
  pub logged : fewest ≤ count_by is_log es
  pub once : count_by is_log es ≤ most

-- The same, with the number of access lines.
pub record IsReleased (fewest most lines : ℕ) (es : List Effect) : Type 0 where
  pub reports : count_by is_report es ≤ 1
  pub drops : count_by is_drop es ≡ 1
  pub logged : fewest ≤ lines
  pub once : lines ≤ most

close_connection-IsSpent :
    (t : WsTurn) (n : ℕ) (es : List Effect) → close_connection t ≡ some (n, es) → IsSpent 0 0 es
close_connection-IsSpent (again c) n es e = cc
close_connection-IsSpent (done c u) n es e = ground arith

serve_upgrade-IsSpent :
    (s : Events) (u : Upgrade) (n : ℕ) (es : List Effect)
    → serve_upgrade s u ≡ some (n, es)
    → IsSpent 0 0 es
unfolding serve_upgrade
serve_upgrade-IsSpent s (reject r) n es e = ground arith
serve_upgrade-IsSpent s (switch key) n es e =
    ground (arith, close_connection-IsSpent (drive_websocket s.ws_script) n es)

module _ (io : Platform) (trim : List ℕ → List ℕ) (derive_accept_key : List ℕ → List ℕ)
    {Obj : Type 0} (ctx : Context Obj) (req : HttpRequest) (s : Events) where
  -- The access lines of a request: none for an upgrade or a reply of Rust's own, and one for a call
  -- of the application that does not send a body in front of its start.
  abbrev pub least_lines : Dispatch io trim derive_accept_key → ℕ
  least_lines (upgrade u) = 0
  least_lines (http f) = fewest s.script f

  abbrev pub most_lines : Dispatch io trim derive_accept_key → ℕ
  most_lines (upgrade u) = 0
  most_lines (http f) = most f

  serve_dispatch-IsSpent :
      (d : Dispatch io trim derive_accept_key) (n : ℕ) (es : List Effect)
      → serve_dispatch io trim derive_accept_key ctx req s d ≡ some (n, es)
      → IsSpent (least_lines d) (most_lines d) es
  unfolding serve_dispatch
  serve_dispatch-IsSpent (upgrade u) n es e = serve_upgrade-IsSpent s u n es e
  serve_dispatch-IsSpent (http f) n es e =
      let all = handle_front-IsHandled io ctx req s.script f n es e in
      record { reports = all.reports; drops = all.drops; logged = all.logged; once = all.once }

  -- A request that is over, and whose handler is not dropped in the middle by the end of its
  -- connection, has released its in-flight guard exactly once: whether it asked for an upgrade that is
  -- refused, fails, or becomes a connection that has ended; whether Rust replied itself; whether the
  -- call of the application could be set up; and however the application answered. The end of the
  -- application of an HTTP request is reported at most once. With a hook or with `access_log` on, the
  -- request leaves no access line if it is an upgrade or Rust replied itself, and otherwise at most
  -- one: exactly one unless the channel yields a body in front of the start. With neither it leaves
  -- none.
  pub serve_request-IsReleased :
      (hook : Option (Entry → Bool)) (enabled : Bool) (entry : ℕ → ℕ → Entry) (n : ℕ)
      (es : List Effect)
      → serve_request io trim derive_accept_key ctx req s ≡ some (n, es)
      → let d = handle_request io trim derive_accept_key ctx.store ctx.place req in
        IsReleased
          (if logs hook enabled then least_lines d else 0)
          (if logs hook enabled then most_lines d else 0)
          (length (access_lines hook enabled entry es))
          es
  unfolding serve_request
  serve_request-IsReleased hook enabled entry n es e =
      let d = handle_request io trim derive_accept_key ctx.store ctx.place req in
      let all = serve_dispatch-IsSpent d n es e in
      let lines = length-access_lines hook enabled entry es in
      record {
        reports = all.reports;
        drops = all.drops;
        logged = ground (arith, lines, all.logged);
        once = ground (arith, lines, all.once);
      }
