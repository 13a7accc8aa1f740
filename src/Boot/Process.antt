-- ===== src/Boot/Process.antt =====
-- src/lib.rs: `serve_process_on` with the process-wide lifespan manager and `cancel_pending_tasks`,
-- and its two callers, `run` and `run_worker`.
use rustasgi.Base.{
  ℕ, max, Bool, true, false, not, List, [], ◌∷◌, ◌++◌, Option, none, some, if◌then◌else◌, Result,
  ok, err,
}
use rustasgi.Cli.{ServerConfig}
use rustasgi.Python.{PyApi}
use rustasgi.Lifespan.{
  parse, LifespanError, Steps, Poll, Decision, serve_managed, serve_plain, fatal, lifespan_phase,
}
use rustasgi.Acme.Task.{from_server_config}
use rustasgi.Acme.Renewal.{AcmeConfig}

-- `ServeConfig` without the challenge store, which starts empty; durations are seconds.
pub record ServeConfig (S : Type 0) : Type 0 where
  pub app_spec : List ℕ
  pub root_path : List ℕ
  pub max_requests : ℕ
  pub graceful_timeout : ℕ
  pub heartbeat_interval : ℕ
  pub access_log : Bool
  pub keep_alive_secs : ℕ
  pub tls_state : Option S
  pub redirect_http_to_https : Bool

-- The arguments of `serve_process_on` that are numbers.
pub record Limits : Type 0 where
  pub max_requests : ℕ
  pub graceful_timeout : ℕ
  pub heartbeat_interval : ℕ
  pub keep_alive : ℕ

-- How `cancel_pending_tasks` ends: where it fails it warns.
pub data Cleanup : Type 0 where
  cancelled barrier_not_made coroutine_not_made cleanup_timed_out cleanup_failed : Cleanup

-- What the Python calls and awaits of `cancel_pending_tasks` give. The barrier's own result is
-- dropped.
pub record CleanupCalls : Type 0 where
  pub barrier_made : Bool
  pub coroutine_made : Bool
  -- `none` is a timeout of 5 seconds, `some false` an exception.
  pub gathered : Option Bool

cancelled_by : Option Bool → Cleanup
cancelled_by none = cleanup_timed_out
cancelled_by (some false) = cleanup_failed
cancelled_by (some true) = cancelled

unfoldable pub cancel_pending_tasks : CleanupCalls → Cleanup
unfolding cancelled_by
cancel_pending_tasks c =
    if not c.barrier_made
    then barrier_not_made
    else if not c.coroutine_made
    then coroutine_not_made
    else cancelled_by c.gathered

-- F and S are the errors and the states of the set-up of TLS.
module _ (py : PyApi) (F S : Type 0) where
  -- The state of the manager in LIFESPAN_MANAGER, the object that `startup` captured.
  abbrev pub Manager : Type 0
  Manager = Option py.Obj

  -- `store_lifespan_manager`, which replaces, and `take_lifespan_manager`.
  abbrev pub store_lifespan_manager : Manager → Option Manager → Option Manager
  store_lifespan_manager m cell = some m

  abbrev pub take_lifespan_manager : Option Manager → Option Manager × Option Manager
  take_lifespan_manager cell = (cell, none)

  pub data Event : Type 0 where
    acme_without_tls : Event
    renewal_started : AcmeConfig → Event
    served : ServeConfig S → (lifespan_state : Option py.Obj) → Event
    lifespan_shut_down : Manager → Event
    tasks_cancelled : Cleanup → Event
    loop_stopped : Event
    loop_joined : Event

  pub data ProcessError : Type 0 where
    tls_setup : F → ProcessError
    lifespan_failed : LifespanError → ProcessError

  -- What the process meets once TLS is set up: the lifespan protocol, and the clean-up.
  pub record Life : Type 0 where
    pub steps : Steps
    pub polls : List (Poll py)
    pub cleanup : CleanupCalls

  unfoldable pub serve_config : ServerConfig → Option S → Limits → ServeConfig S
  serve_config config tls l = record {
    app_spec = config.app_spec;
    root_path = config.root_path;
    max_requests = l.max_requests;
    graceful_timeout = max l.graceful_timeout 1;
    heartbeat_interval = max l.heartbeat_interval 1;
    access_log = config.access_log;
    keep_alive_secs = l.keep_alive;
    tls_state = tls;
    redirect_http_to_https = config.redirect_http_to_https;
  }

  -- The ACME set-up.
  unfoldable pub acme_events : Option AcmeConfig → Option S → List Event
  acme_events none tls = []
  acme_events (some cfg) none = acme_without_tls ∷ []
  acme_events (some cfg) (some tls) = renewal_started cfg ∷ []

  unfoldable pub acme_setup : ServerConfig → Option S → List Event
  unfolding acme_events
  acme_setup config tls = acme_events (from_server_config config) tls

  -- The shutdown of the manager that is taken.
  unfoldable pub shut_down : Option Manager → List Event
  shut_down none = []
  shut_down (some m) = lifespan_shut_down m ∷ []

  -- From `server::serve` on, which returns `Ok(())`.
  unfoldable pub after_startup :
      ServeConfig S → CleanupCalls → Option Manager → Option py.Obj → List Event × Option Manager
  unfolding shut_down
  after_startup serve cleanup cell state =
      let (taken, cell1) = take_lifespan_manager cell in
      (
        served serve state ∷ shut_down taken
            ++ tasks_cancelled (cancel_pending_tasks cleanup) ∷ loop_stopped ∷ loop_joined ∷ [],
        cell1,
      )

  abbrev pub Outcome : Type 0
  Outcome = Result ProcessError (Unit {0}) × List Event × Option Manager

  -- What the lifespan's decision leads to, behind the events so far.
  unfoldable pub act_on :
      ServeConfig S → CleanupCalls → Option Manager → List Event → Decision py → Outcome
  unfolding after_startup
  act_on serve cleanup cell before (fatal e) = (err (lifespan_failed e), before, cell)
  act_on serve cleanup cell before serve_plain =
      let (es, cell1) = after_startup serve cleanup cell none in (ok tt, before ++ es, cell1)
  act_on serve cleanup cell before (serve_managed state) =
      let (es, cell1) = after_startup serve cleanup (store_lifespan_manager state cell) state in
      (ok tt, before ++ es, cell1)

  unfoldable pub when_decided :
      ServeConfig S
      → CleanupCalls
      → Option Manager
      → List Event
      → Option (Decision py)
      → Option Outcome
  when_decided serve cleanup cell before none = none
  when_decided serve cleanup cell before (some d) = some (act_on serve cleanup cell before d)

  -- From the set-up of TLS, as `setup_tls` gives it; `none` while the lifespan's race is open.
  unfoldable pub serve_process_on :
      ServerConfig → Limits → Life → Option Manager → Result F (Option S) → Option Outcome
  unfolding when_decided acme_setup act_on
  serve_process_on config l life cell (err e) = some (err (tls_setup e), [], cell)
  serve_process_on config l life cell (ok tls) =
      when_decided (serve_config config tls l) life.cleanup cell (acme_setup config tls)
        (lifespan_phase py (parse config.lifespan) life.steps life.polls)
