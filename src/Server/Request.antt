-- ===== src/Server/Request.antt =====
-- src/server.rs, `handle_request` and `handle_websocket_upgrade` with the tasks that they spawn: one
-- request from its guard on.
use rustasgi.Base.{ℕ, Bool, List, [], ◌∷◌, ◌++◌, Option, none, some, if◌then◌else◌}
use rustasgi.Request.Front.{HttpRequest, Platform}
use rustasgi.Request.Upgrade.{Upgrade, reject, switch, Dispatch, upgrade, http, handle_request}
use rustasgi.Response.Head.{Entry, Logged, log_access_task}
use rustasgi.Response.{Effect, log_access, drop_guard, again, done}
use rustasgi.Response.Respond.{Script}
use rustasgi.Response.Handle.{Context, handle_front}
use rustasgi.Ws.Driver.{WsTurn, WsScript, drive_websocket}

-- All that the outside world does to a request, whichever way it goes.
pub record Events : Type 0 where
  pub script : Script
  -- `on_upgrade.await` succeeds.
  pub upgraded : Bool
  pub ws_script : WsScript

-- What a request's effects make of the access log, by the hook and the setting `access_log`: `log_access`
-- and `log_access_task` emit alike. An entry is the request's with a status and a size.
module _ (hook : Option (Entry → Bool)) (enabled : Bool) (entry : ℕ → ℕ → Entry) where
  unfoldable pub access_lines : List Effect → List Logged
  access_lines [] = []
  access_lines (log_access status size ∷ es) =
      log_access_task hook enabled (entry status size) ++ access_lines es
  access_lines (_ ∷ es) = access_lines es

-- The task of a connection drops the guard at its end.
abbrev pub close_connection : WsTurn → Option (ℕ × List Effect)
close_connection (again c) = none
close_connection (done c u) = some (101, drop_guard ∷ [])

-- A request without a key is answered and drops the guard; otherwise the task gets it.
unfoldable pub serve_upgrade : Events → Upgrade → Option (ℕ × List Effect)
serve_upgrade s (reject r) = some (r.status, drop_guard ∷ [])
serve_upgrade s (switch key) =
    if s.upgraded
    then close_connection (drive_websocket s.ws_script)
    else some (101, drop_guard ∷ [])

module _ (io : Platform) (trim : List ℕ → List ℕ) (derive_accept_key : List ℕ → List ℕ)
    {Obj : Type 0} (ctx : Context Obj) where
  unfoldable pub serve_dispatch :
      HttpRequest → Events → Dispatch io trim derive_accept_key → Option (ℕ × List Effect)
  unfolding serve_upgrade
  serve_dispatch req s (upgrade u) = serve_upgrade s u
  serve_dispatch req s (http f) = handle_front io ctx req s.script f

  -- The status and the effects of a request; `none` while it is not over.
  unfoldable pub serve_request : HttpRequest → Events → Option (ℕ × List Effect)
  unfolding serve_dispatch
  serve_request req s =
      serve_dispatch req s (handle_request io trim derive_accept_key ctx.store ctx.place req)
