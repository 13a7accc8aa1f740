-- ===== src/Boot/RunLaws.antt =====
-- The descriptors that a worker is given are all closed when it returns (src/lib.rs, src/socket.rs).
use mathlib.Core.Path.{subst}
use rustasgi.Base.{ℕ, ◌≡◌, refl, ap, Bool, List, Option, none, some, map, Result, ok, err}
use rustasgi.Python.{PyApi}
use rustasgi.Cli.{ServerConfig}
use rustasgi.Socket.{
  InheritedSocket, BoundListener, SocketError, SocketApi, fd_of, fds, bind_inherited,
}
use rustasgi.Socket.Laws.{count, descriptions, IsSettled, bind_inherited-IsSettled}
use rustasgi.Tls.Config.{ReadFile, TlsLib}
use rustasgi.Tls.State.{TlsState}
use rustasgi.Tls.Resolver.{SniResolver}
use rustasgi.Boot.Settings.{Env, worker_settings}
use rustasgi.Boot.Process.{Limits, Life, Event, Outcome}
use rustasgi.Boot.Run.{
  Setup, Start, RunError, Ran, finished, serve_on, when_started, start, run_worker,
}
use Prim.Native.String.{String}

module _ (py : PyApi) (os : SocketApi) (lib : TlsLib) (is_dns_name : List ℕ → Bool)
    (bad_name : String)
    (with_cert_resolver : SniResolver (List (List ℕ) × lib.Key) → lib.Config) where
  abbrev Closes : List ℕ → Option (Ran py os lib is_dns_name bad_name with_cert_resolver) → Type 0
  Closes held none = Unit
  Closes held (some (r, es, closed)) = (n : ℕ) → count n closed ≡ count n held

  finished-Closes :
      (held : List ℕ) (ls : List BoundListener)
      (o : Option
        (Outcome py (Setup py os lib is_dns_name bad_name with_cert_resolver) (TlsState lib)))
      → map fd_of ls ≡ held
      → Closes held (finished py os lib is_dns_name bad_name with_cert_resolver ls o)
  finished-Closes held ls none h = tt
  finished-Closes held ls (some (r, es, cell)) h = λ n. ap (count n) h

  serve_on-Closes :
      (held : List ℕ) (texts : List (List ℕ)) (disk : List ℕ → ReadFile) (config : ServerConfig)
      (l : Limits)
      (life : Life py (Setup py os lib is_dns_name bad_name with_cert_resolver) (TlsState lib))
      (bound : Result SocketError (List BoundListener) × List ℕ)
      → IsSettled held texts bound
      → Closes held
          (serve_on py os lib is_dns_name bad_name with_cert_resolver disk config l life bound)
  unfolding serve_on
  serve_on-Closes held texts disk config l life (err e, closed) h = h
  serve_on-Closes held texts disk config l life (ok ls, closed) h = finished-Closes held ls _ h.0

  when_started-Closes :
      (held : List ℕ)
      (next : Unit {0} → Option (Ran py os lib is_dns_name bad_name with_cert_resolver))
      (o : Option (Result (RunError py os lib is_dns_name bad_name with_cert_resolver) (Unit {0})))
      → Closes held (next tt)
      → Closes held (when_started py os lib is_dns_name bad_name with_cert_resolver held next o)
  unfolding when_started
  when_started-Closes held next none h = tt
  when_started-Closes held next (some (err e)) h = λ n. refl
  when_started-Closes held next (some (ok u)) h = h

  -- Whether a worker serves, or fails to start its bridge, runtime or loop, to bind a socket, to set
  -- up TLS, or in its lifespan startup: when it returns, each descriptor that it was given has been
  -- closed as often as it was given.
  pub run_worker-closes :
      (env : Env) (disk : List ℕ → ReadFile) (a : ServerConfig) (inherited : List InheritedSocket)
      (l : Limits) (s : Start py os lib is_dns_name bad_name with_cert_resolver)
      (life : Life py (Setup py os lib is_dns_name bad_name with_cert_resolver) (TlsState lib))
      (r : Result (RunError py os lib is_dns_name bad_name with_cert_resolver) (Unit {0}))
      (es : List
        (Event py (Setup py os lib is_dns_name bad_name with_cert_resolver) (TlsState lib)))
      (closed : List ℕ) (n : ℕ)
      → run_worker py os lib is_dns_name bad_name with_cert_resolver env disk a inherited l s life
        ≡ some (r, es, closed)
      → count n closed ≡ count n (fds inherited)
  unfolding run_worker
  run_worker-closes env disk a inherited l s life r es closed n h =
      subst (Closes (fds inherited)) h
        (when_started-Closes (fds inherited) _
          (start py os lib is_dns_name bad_name with_cert_resolver s)
          (serve_on-Closes (fds inherited) (descriptions inherited) disk (worker_settings env a) l
            life (bind_inherited os inherited) (bind_inherited-IsSettled os inherited)))
        n
