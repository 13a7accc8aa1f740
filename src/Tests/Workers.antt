-- ===== src/Tests/Workers.antt =====
-- A worker of src/server.rs: its counters, its shutdown and its background tasks.
use rustasgi.Base.{
  ℕ, suc, ◌+◌, ◌-◌, ◌*◌, ◌/◌, ◌≡◌, refl, Bool, true, false, not, ◌&&◌, ◌||◌, List, [], ◌∷◌, ◌++◌,
  none, some, length, any, ◌==◌, if◌then◌else◌, arith,
}
use rustasgi.Server.Shutdown.{ShutdownKind, graceful, quick, Notify, Shutdown, wait, trigger_all}
use rustasgi.Server.ShutdownLaws.{trigger_all-wait_lost}
use rustasgi.Server.Worker.{Action, arrive, enter, leave, count, Worker, fresh, act, run}
use rustasgi.Server.WorkerLaws.{IsExact, run-IsExact}
use rustasgi.Server.Drain.{Joins, report, Look, abort_connections, serve_done, serve_end}
use rustasgi.Server.DrainLaws.{IsOver, Sleeps, serve_end-returns}
use rustasgi.Server.Watch.{Tick, CertTick, CertWatch, cert_watcher}
use rustasgi.Server.WatchLaws.{cert_watcher-retries}

-- The waiting and the woken tasks.
abbrev has : ℕ → List ℕ → Bool
has t = any (λ u. u == t)

abbrev drop : ℕ → List ℕ → List ℕ
drop t [] = []
drop t (u ∷ us) = if t == u then drop t us else u ∷ drop t us

drop-has : (t u : ℕ) (us : List ℕ) → has u (drop t us) ≡ (has u us && not (t == u))
drop-has t u [] = refl
drop-has t u (v ∷ vs) = ground (arith, drop-has t u vs)

has-append : (t : ℕ) (us vs : List ℕ) → has t (us ++ vs) ≡ (has t us || has t vs)
has-append t [] vs = refl
has-append t (u ∷ us) vs = ground (arith, has-append t us vs)

abbrev waiters : Notify
waiters = record {
  State = List ℕ × List ℕ;
  new = ([], []);
  register = λ s t. (t ∷ s.0, drop t s.1);
  notify_waiters = λ s. ([], s.1 ++ s.0);
  is_waiting = λ s t. has t s.0;
  is_woken = λ s t. has t s.1;
  register_waits = λ s t u. refl;
  register_woken = λ s t u. drop-has t u s.1;
  notify_wakes = λ s t. has-append t s.1 s.0;
}

abbrev running : Shutdown waiters
running = record { flag = false; quick_flag = false; notify = ([], []) }

abbrev stopping : Shutdown waiters
stopping = record running { flag = true }

abbrev kinds : List ShutdownKind
kinds = graceful ∷ quick ∷ []

trigger_all-wait_lost_example :
    waiters.is_woken (trigger_all waiters kinds (wait waiters 7 stopping)).notify 7 ≡ false
trigger_all-wait_lost_example = trigger_all-wait_lost waiters 7 kinds stopping refl

-- Two requests: one streams while the other is counted, which stops the worker.
abbrev overlap : List Action
overlap = arrive ∷ arrive ∷ enter ∷ enter ∷ leave true ∷ leave false ∷ count ∷ []

abbrev overlapped : Worker
overlapped = record {
  in_flight = 1;
  completed = 1;
  shutting_down = true;
  turned_away = 0;
  admitted = 0;
  handling = 0;
  leaving = 1;
  streaming = 1;
}

run-IsExact_example : IsExact 1 overlapped
unfolding run act fresh
run-IsExact_example = run-IsExact 1 overlap overlapped refl

-- One request in flight until round 2.
abbrev looks : ℕ → Look
looks i = record { in_flight = 2 - i; elapsed = 60 * i }

abbrev looks-Sleeps : Sleeps looks
looks-Sleeps = λ i. omega arith

abbrev all_end : Joins
all_end = record { acceptors = true; connections = true }

serve_end-returns_example :
    ((j : ℕ) × IsOver (looks j) 1000
      × (serve_end all_end (suc (1000 / 50 + 1)) graceful looks (λ i. 2 - i) 1000
          ≡ some (report (2 - j) ∷ abort_connections ∷ serve_done ∷ [])))
    × (serve_end all_end (suc (1000 / 50 + 1)) quick looks (λ i. 2 - i) 1000
        ≡ some (abort_connections ∷ serve_done ∷ []))
serve_end-returns_example = serve_end-returns all_end looks (λ i. 2 - i) 1000 looks-Sleeps

abbrev calm : Tick
calm = record { is_set = false; orphaned = false; is_alive = none }

abbrev renewed : Bool → CertTick
renewed good = record {
  is_set = false;
  cert_mtime = some 20;
  key_mtime = some 20;
  reload_ok = good;
}

abbrev watch : CertWatch
watch = record { last_cert = some 10; last_key = some 10; tried = [] }

abbrev ticks : List CertTick
ticks = renewed false ∷ renewed true ∷ renewed true ∷ []

cert_watcher-retries_example : length (cert_watcher watch ticks).tried ≡ 2
cert_watcher-retries_example =
    cert_watcher-retries 20 20 watch ticks refl
      ((refl, refl, refl), ((refl, refl, refl), ((refl, refl, refl), tt)))
