-- ===== src/Server/Serve.antt =====
-- src/server.rs: `serve` as a whole. Its accept loops, its connections, their requests, the triggers
-- of a shutdown and the task of `serve` itself take steps in any order.
use rustasgi.Base.{
  ℕ, suc, ◌+◌, ◌-◌, ◌<◌, ◌≡◌, ◌⊎◌, Bool, true, false, ◌||◌, List, [], ◌∷◌, Option, none, some,
  length, if◌then◌else◌,
}
use rustasgi.Server.Shutdown.{ShutdownKind, graceful, quick, is_quick}
use rustasgi.Server.Worker.{
  Action, arrive, enter, leave, count, finish_stream, stop, Worker, fresh, cancel_worker, act,
}

-- Where the task of `serve` is: it waits for the shutdown; it joins the accept loops; it drains; it
-- has left the drain's loop; it aborts the connections and joins them; it has returned. The last two
-- keep the number of requests in flight that the drain reported, if there was a drain.
pub data Stage : Type 0 where
  serving : Stage
  joining : ShutdownKind → Stage
  draining reporting : Stage
  aborting finished : (remaining : Option ℕ) → Stage

pub record Serve : Type 0 where
  pub worker : Worker
  -- The accept loops that have not left.
  pub acceptors : ℕ
  -- Connections of the `JoinSet` that are between two requests. A connection of HTTP/1 has one
  -- request at a time, so the others are those of the requests that the worker counts.
  pub idle : ℕ
  pub quick_flag : Bool
  -- The drain's time is over.
  pub timed_out : Bool
  pub stage : Stage

-- What `serve` spawns first.
pub data Task : Type 0 where
  signal_watcher heartbeat cert_watcher : Task

-- By the paths of the TLS state, if there is one.
abbrev pub watches_certs : {A : Type 0} → Option (Option A × Option A) → Bool
watches_certs (some (some cert, some key)) = true
watches_certs (some (some cert, none)) = false
watches_certs (some (none, key)) = false
watches_certs none = false

abbrev pub background : {A : Type 0} → Option (Option A × Option A) → List Task
background tls = signal_watcher ∷ heartbeat ∷ (if watches_certs tls then cert_watcher ∷ [] else [])

unfoldable pub start : {L : Type 0} → List L → Serve
start listeners = record {
  worker = fresh;
  acceptors = length listeners;
  idle = 0;
  quick_flag = false;
  timed_out = false;
  stage = serving;
}

abbrev pub kind_of : Bool → ShutdownKind
kind_of quick_flag = if quick_flag then quick else graceful

abbrev pub connections : Serve → ℕ
connections s = s.idle + s.worker.admitted + s.worker.handling + s.worker.leaving

-- What the requests do without a change of their connection.
abbrev pub is_internal : Action → Bool
is_internal enter = true
is_internal (leave streams) = true
is_internal finish_stream = true
is_internal _ = false

-- The stage behind the join of the accept loops.
abbrev pub behind_join : ShutdownKind → Stage
behind_join graceful = draining
behind_join quick = aborting none

pub data Step (max_requests : ℕ) : Serve → Serve → Type 0 where
  -- An accept loop spawns a connection; also with the flag set, if its select takes that branch.
  accept : (s : Serve) → 0 < s.acceptors → Step max_requests s (record s { idle = suc s.idle })
  acceptor_left :
      (s : Serve)
      → 0 < s.acceptors
      → s.worker.shutting_down ≡ true
      → Step max_requests s (record s { acceptors = s.acceptors - 1 })
  -- A request comes on a connection and reads the flag; a 503 leaves the connection as it is.
  request :
      (s : Serve) (w : Worker)
      → 0 < s.idle
      → act max_requests s.worker arrive ≡ some w
      → Step max_requests s
          (record s { worker = w; idle = if s.worker.shutting_down then s.idle else s.idle - 1 })
  work :
      (s : Serve) (a : Action) (w : Worker)
      → is_internal a ≡ true
      → act max_requests s.worker a ≡ some w
      → Step max_requests s (record s { worker = w })
  -- The service counts the request, and its connection is free.
  answered :
      (s : Serve) (w : Worker)
      → act max_requests s.worker count ≡ some w
      → Step max_requests s (record s { worker = w; idle = suc s.idle })
  -- A connection ends: by its client, by hyper, or by the abort.
  close : (s : Serve) → 0 < s.idle → Step max_requests s (record s { idle = s.idle - 1 })
  -- What `abandon` is to the worker.
  cancel :
      (s : Serve)
      → 0 < s.worker.handling
      → Step max_requests s (record s { worker = cancel_worker s.worker })
  trigger :
      (s : Serve) (kind : ShutdownKind) (w : Worker)
      → act max_requests s.worker stop ≡ some w
      → Step max_requests s (record s { worker = w; quick_flag = is_quick kind || s.quick_flag })
  -- The task of `serve`.
  woken :
      (s : Serve)
      → s.stage ≡ serving
      → s.worker.shutting_down ≡ true
      → Step max_requests s (record s { stage = joining (kind_of s.quick_flag) })
  joined :
      (s : Serve) (kind : ShutdownKind)
      → s.stage ≡ joining kind
      → s.acceptors ≡ 0
      → Step max_requests s (record s { stage = behind_join kind })
  time_passes :
      (s : Serve) → s.stage ≡ draining → Step max_requests s (record s { timed_out = true })
  drained :
      (s : Serve)
      → s.stage ≡ draining
      → (s.worker.in_flight ≡ 0) ⊎ (s.timed_out ≡ true)
      → Step max_requests s (record s { stage = reporting })
  reported :
      (s : Serve)
      → s.stage ≡ reporting
      → Step max_requests s (record s { stage = aborting (some s.worker.in_flight) })
  returned :
      (s : Serve) (remaining : Option ℕ)
      → s.stage ≡ aborting remaining
      → connections s ≡ 0
      → Step max_requests s (record s { stage = finished remaining })

pub data Reach (max_requests : ℕ) (s : Serve) : Serve → Type 0 where
  here : Reach max_requests s s
  next : {t u : Serve} → Reach max_requests s t → Step max_requests t u → Reach max_requests s u
