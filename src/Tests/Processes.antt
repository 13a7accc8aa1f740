-- ===== src/Tests/Processes.antt =====
-- The start and the end of a process (src/lib.rs, src/runtime.rs).
use rustasgi.Base.{
  ℕ, ◌*◌, ◌≡◌, refl, true, false, if◌then◌else◌, List, [], ◌∷◌, Option, none, some, ltb, Result, ok,
  err, arith,
}
use rustasgi.Base.Text.{codes, to_ascii_lowercase, bytes_eq, contains}
use rustasgi.Base.Words.{join, strip_suffix}
use rustasgi.Cli.{ServerConfig}
use rustasgi.Lifespan.{serve_plain, parse, lifespan_phase}
use rustasgi.Tls.Config.{not_found}
use rustasgi.Acme.Task.{from_server_config}
use rustasgi.Boot.Settings.{Env}
use rustasgi.Boot.Import.{Modules, import_app, add_cwd}
use rustasgi.Boot.ImportLaws.{import_app-spec_text}
use rustasgi.Boot.Loop.{LoopError, Look, wait_loop_running, start_asyncio_loop}
use rustasgi.Boot.LoopLaws.{Sleeps, IsEnd, wait_loop_running-ends}
use rustasgi.Boot.Process.{
  Limits, Life, Event, ProcessError, CleanupCalls, serve_process_on, served, tasks_cancelled,
  cancelled, loop_stopped, loop_joined, serve_config, acme_setup, acme_events, when_decided, act_on,
  after_startup, shut_down, cancel_pending_tasks,
}
use rustasgi.Boot.ProcessLaws.{
  setting_up, thread_over, replay, states, shut_downs, serve_process_on-phases,
  serve_process_on-managed,
}
use rustasgi.Boot.Run.{Start, Setup, RunError, run_worker, start, when_started, serve_on}
use rustasgi.Boot.RunLaws.{run_worker-closes}
use rustasgi.Tls.State.{TlsState}
use rustasgi.Socket.{
  SocketError, bind_inherited, bind_loop, bind_one, bind_tcp, bind_unix, not_empty, from_raw,
}
use rustasgi.Socket.Laws.{count}
use rustasgi.Tests.Values.{toy}
use rustasgi.Tests.Certificates.{lib}
use rustasgi.Tests.Sockets.{os, handed}
use text.Mathlib.Text.{◌==◌ as str_eq}

abbrev plain : ServerConfig
plain = record {
  app_spec = codes "app:app";
  host = codes "127.0.0.1";
  port = 8000;
  workers = 1;
  log_level = codes "info";
  root_path = [];
  lifespan = codes "off";
  access_log = false;
  tls_cert = none;
  tls_key = none;
  redirect_http_to_https = false;
  acme_directory = none;
  acme_email = none;
  acme_domains = [];
  acme_dir = none;
  tls_sni = [];
}

abbrev env : Env
env name =
    if str_eq name "RUSTWASGI_ACME_DOMAINS"
    then some (codes "a.org,b.org")
    else if str_eq name "RUSTWASGI_TLS_SNI"
    then some (codes "a.org,b.org")
    else if str_eq name "RUSTWASGI_ACME_EMAIL"
    then some []
    else none

-- Objects are their dotted names.
abbrev modules : Modules
modules = record {
  Obj = List (List ℕ);
  getcwd = some (codes "/srv");
  import_module = λ m. some (m ∷ []);
  getattr = λ o name. some (name ∷ o);
  call0 = λ o. some (codes "()" ∷ o);
}

import_app-spec_text_example :
    import_app modules [] (codes "pkg.mod:make.app()")
    ≡ (codes "/srv" ∷ [], ok (codes "()" ∷ codes "app" ∷ codes "make" ∷ codes "pkg.mod" ∷ []))
unfolding add_cwd join strip_suffix contains bytes_eq
import_app-spec_text_example =
    import_app-spec_text modules (codes "/srv") [] (codes "pkg.mod") (codes "make")
      (codes "app" ∷ []) true refl refl refl (refl, (refl, tt)) refl refl

-- The loop runs from the second look on.
abbrev looks : ℕ → Look
looks i = record { running = ltb 0 i; elapsed = 10 * i }

looks-Sleeps : Sleeps looks
looks-Sleeps = λ i. omega arith

wait_loop_running-ends_example :
    (r : Result LoopError ℕ) × ((wait_loop_running 1002 looks 0 ≡ some r) × IsEnd looks 0 r)
wait_loop_running-ends_example = wait_loop_running-ends looks looks-Sleeps

abbrev limits : Limits
limits = record { max_requests = 0; graceful_timeout = 0; heartbeat_interval = 1; keep_alive = 0 }

abbrev tidy : CleanupCalls
tidy = record { barrier_made = true; coroutine_made = true; gathered = some true }

abbrev life : Life toy ℕ ℕ
life = record {
  steps = record {
    init_call = true;
    init_submit = true;
    init_done = true;
    extracted = true;
    scope_built = true;
    app_called = true;
    app_submitted = true;
    put = ok tt;
  };
  polls = [];
  cleanup = tidy;
}

abbrev all_events : List (Event toy ℕ ℕ)
all_events =
    served
      (record {
        app_spec = codes "app:app";
        root_path = [];
        max_requests = 0;
        graceful_timeout = 1;
        heartbeat_interval = 1;
        access_log = false;
        keep_alive_secs = 0;
        tls_state = none;
        redirect_http_to_https = false;
      })
      none
    ∷ tasks_cancelled cancelled
    ∷ loop_stopped
    ∷ loop_joined
    ∷ []

abbrev no_manager : Option (Option toy.Obj)
no_manager = none

serve_process_on-phases_example :
    (replay toy ℕ ℕ setting_up all_events ≡ some thread_over) × (no_manager ≡ none)
unfolding serve_process_on serve_config acme_setup acme_events when_decided act_on after_startup
    shut_down cancel_pending_tasks lifespan_phase parse from_server_config bytes_eq
    to_ascii_lowercase
serve_process_on-phases_example =
    serve_process_on-phases toy ℕ ℕ plain limits life (ok none) (ok tt) all_events none refl

serve_process_on-managed_example :
    (r : Result (ProcessError toy ℕ ℕ) (Unit {0})) × (es : List (Event toy ℕ ℕ)) × (cell : Option
      (Option toy.Obj))
    × (serve_process_on toy ℕ ℕ plain limits life none (ok none) ≡ some (r, es, cell))
    × (states toy ℕ ℕ es ≡ none ∷ [])
    × (shut_downs toy ℕ ℕ es ≡ [])
unfolding lifespan_phase parse bytes_eq to_ascii_lowercase
serve_process_on-managed_example =
    serve_process_on-managed toy ℕ ℕ plain limits life none serve_plain refl

-- A worker whose second socket is refused once its loop runs.
abbrev S : Type 0
S = Setup toy os lib (λ d. true) "" (λ r. [])

abbrev calls : Start toy os lib (λ d. true) "" (λ r. [])
calls = record {
  bridge_installed = true;
  runtime_built = true;
  loop_calls = record {
    import_asyncio = true;
    new_event_loop = true;
    spawn = true;
    thread_import = true;
    set_event_loop = true;
    run_forever = true;
  };
  looks = looks;
}

abbrev worker_life : Life toy S (TlsState lib)
worker_life = record { steps = life.steps; polls = []; cleanup = tidy }

run_worker-closes_example : count 8 (9 ∷ 8 ∷ 7 ∷ []) ≡ 1
unfolding run_worker start start_asyncio_loop wait_loop_running when_started serve_on bind_inherited
    bind_loop bind_one bind_tcp bind_unix bytes_eq not_empty from_raw
run_worker-closes_example =
    run_worker-closes toy os lib (λ d. true) "" (λ r. []) env (λ path. not_found) plain handed
      limits calls worker_life (err (RunError.socket_error SocketError.set_nonblocking)) []
      (9 ∷ 8 ∷ 7 ∷ []) 8 refl
