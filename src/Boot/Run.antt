-- ===== src/Boot/Run.antt =====
-- src/lib.rs: `run` and `run_worker`, from their configuration to their result.
use rustasgi.Base.{ℕ, Bool, not, List, [], Option, none, some, map, if◌then◌else◌, Result, ok, err}
use rustasgi.Python.{PyApi}
use rustasgi.Cli.{ServerConfig}
use rustasgi.Socket.{
  InheritedSocket, BoundListener, SocketError, SocketApi, fd_of, fds, bind_inherited,
  bind_standalone,
}
use rustasgi.Tls.Config.{ReadFile, TlsLib}
use rustasgi.Tls.State.{TlsState}
use rustasgi.Tls.Resolver.{SniResolver}
use rustasgi.Tls.Sni.{SetupError, setup_tls}
use rustasgi.Boot.Settings.{Env, settings, worker_settings}
use rustasgi.Boot.Import.{ImportError, Modules, import_app}
use rustasgi.Boot.Loop.{
  LoopError, ThreadEnd, LoopCalls, Look, start_asyncio_loop, wait_loop_running,
}
use rustasgi.Boot.Process.{Limits, Life, Event, ProcessError, Outcome, serve_process_on}
use Prim.Native.String.{String}

module _ (py : PyApi) (os : SocketApi) (lib : TlsLib) (is_dns_name : List ℕ → Bool)
    (bad_name : String)
    (with_cert_resolver : SniResolver (List (List ℕ) × lib.Key) → lib.Config) where
  abbrev pub Setup : Type 0
  Setup = SetupError lib is_dns_name bad_name with_cert_resolver

  -- What the steps in front of the sockets meet: `Bridge::install`, the build of the Tokio runtime,
  -- the start of the loop, and the looks at it while it starts.
  pub record Start : Type 0 where
    pub bridge_installed : Bool
    pub runtime_built : Bool
    pub loop_calls : LoopCalls
    pub looks : ℕ → Look

  pub data RunError : Type 0 where
    import_error : ImportError → RunError
    -- `Bridge::install` raised.
    raised : RunError
    -- "failed to start tokio runtime".
    no_runtime : RunError
    loop_error : LoopError → RunError
    socket_error : SocketError → RunError
    process_error : ProcessError py Setup (TlsState lib) → RunError

  abbrev waited : Option (Result LoopError ℕ) → Option (Result RunError (Unit {0}))
  waited none = none
  waited (some (err e)) = some (err (loop_error e))
  waited (some (ok i)) = some (ok tt)

  started : (ℕ → Look) → Result LoopError ThreadEnd → Option (Result RunError (Unit {0}))
  started looks (err e) = some (err (loop_error e))
  started looks (ok body) = waited (wait_loop_running 1002 looks 0)

  -- `none` only if the loop is looked at more than 1002 times.
  unfoldable pub start : Start → Option (Result RunError (Unit {0}))
  unfolding started
  start s =
      if not s.bridge_installed
      then some (err raised)
      else if not s.runtime_built
      then some (err no_runtime)
      else started s.looks (start_asyncio_loop s.loop_calls)

  -- The result, the events, and the descriptors that are closed when the call returns.
  abbrev pub Ran : Type 0
  Ran = Result RunError (Unit {0}) × List (Event py Setup (TlsState lib)) × List ℕ

  abbrev result_of :
      Result (ProcessError py Setup (TlsState lib)) (Unit {0}) → Result RunError (Unit {0})
  result_of (ok u) = ok u
  result_of (err e) = err (process_error e)

  -- The listeners are dropped by `serve`, or by an error in front of it.
  abbrev pub finished : List BoundListener → Option (Outcome py Setup (TlsState lib)) → Option Ran
  finished ls none = none
  finished ls (some (r, es, cell)) = some (result_of r, es, map fd_of ls)

  -- With the sockets as they were bound.
  unfoldable pub serve_on :
      (List ℕ → ReadFile)
      → ServerConfig
      → Limits
      → Life py Setup (TlsState lib)
      → Result SocketError (List BoundListener) × List ℕ
      → Option Ran
  serve_on disk config l life (err e, closed) = some (err (socket_error e), [], closed)
  serve_on disk config l life (ok ls, closed) = finished ls (
      serve_process_on py Setup (TlsState lib) config l life none (
        setup_tls lib is_dns_name bad_name with_cert_resolver disk config.tls_sni config.tls_cert
          config.tls_key))

  -- `bind` once the start has succeeded; an error drops the descriptors at hand.
  unfoldable pub when_started :
      List ℕ → (Unit {0} → Option Ran) → Option (Result RunError (Unit {0})) → Option Ran
  when_started held next none = none
  when_started held next (some (err e)) = some (err e, [], held)
  when_started held next (some (ok u)) = next u

  unfoldable pub run_worker :
      Env
      → (List ℕ → ReadFile)
      → ServerConfig
      → List InheritedSocket
      → Limits
      → Start
      → Life py Setup (TlsState lib)
      → Option Ran
  unfolding when_started serve_on
  run_worker env disk a inherited l s life =
      when_started (fds inherited)
        (λ u. serve_on disk (worker_settings env a) l life (bind_inherited os inherited)) (start s)

  abbrev standalone_limits : ℕ → Limits
  standalone_limits keep_alive = record {
    max_requests = 0;
    graceful_timeout = 30;
    heartbeat_interval = 3600;
    keep_alive = keep_alive;
  }

  imported : {A : Type 0} → List (List ℕ) × Result ImportError A → Option Ran → Option Ran
  imported (path, err e) later = some (err (import_error e), [], [])
  imported (path, ok app) later = later

  unfoldable pub run :
      Modules
      → List (List ℕ)
      → Env
      → (List ℕ → ReadFile)
      → ServerConfig
      → ℕ
      → Start
      → Life py Setup (TlsState lib)
      → Option Ran
  unfolding imported when_started serve_on
  run modules path env disk a keep_alive s life = imported (import_app modules path a.app_spec) (
      when_started []
        (λ u.
          serve_on disk (settings env a) (standalone_limits keep_alive) life
            (bind_standalone os a.host a.port))
        (start s))
