-- ===== src/Server/Worker.antt =====
-- src/server.rs: the service closure of `spawn_connection` with the counters of `serve`, and
-- src/runtime.rs: `FlightGuard`. An action is what one of the concurrent tasks does in one step.
use rustasgi.Base.{
  ℕ, ◌+◌, ◌-◌, Bool, true, false, ◌&&◌, List, [], ◌∷◌, Option, none, some, leb, ltb, if◌then◌else◌,
}

pub data Action : Type 0 where
  -- A request reaches the service, which reads the shutdown flag.
  arrive : Action
  -- A request that passed that test creates its guard and enters `handle_request`.
  enter : Action
  -- `handle_request` returns: the guard has been dropped on an early return, or has been moved
  -- into the task that streams the response.
  leave : (streams : Bool) → Action
  -- The service counts a request that has left `handle_request`.
  count : Action
  -- The connection's task ends, by its client or by an abort, while a request is inside
  -- `handle_request`: the handler's future is dropped, and the guard with it.
  abandon : Action
  -- A streaming task ends and drops its guard.
  finish_stream : Action
  -- A shutdown from elsewhere: a signal, the heartbeat.
  stop : Action

pub record Worker : Type 0 where
  pub in_flight : ℕ
  pub completed : ℕ
  pub shutting_down : Bool
  -- Requests answered with 503, those that passed the test, those inside `handle_request`, those
  -- that have left it and are not counted yet, and the streaming tasks.
  pub turned_away : ℕ
  pub admitted : ℕ
  pub handling : ℕ
  pub leaving : ℕ
  pub streaming : ℕ

unfoldable pub fresh : Worker
fresh = record {
  in_flight = 0;
  completed = 0;
  shutting_down = false;
  turned_away = 0;
  admitted = 0;
  handling = 0;
  leaving = 0;
  streaming = 0;
}

-- `FlightGuard::new` and its `Drop`.
abbrev pub new_guard : Worker → Worker
new_guard w = record w { in_flight = w.in_flight + 1 }

abbrev pub drop_guard : Worker → Worker
drop_guard w = record w { in_flight = w.in_flight - 1 }

abbrev pub cancel_worker : Worker → Worker
cancel_worker w = record (drop_guard w) { handling = w.handling - 1 }

arrive_step : Worker → Worker
arrive_step w =
    if w.shutting_down
    then record w { turned_away = w.turned_away + 1 }
    else record w { admitted = w.admitted + 1 }

enter_step : Worker → Worker
enter_step w = record (new_guard w) { admitted = w.admitted - 1; handling = w.handling + 1 }

leave_step : Bool → Worker → Worker
leave_step streams w =
    if streams
    then record w {
      streaming = w.streaming + 1;
      handling = w.handling - 1;
      leaving = w.leaving + 1;
    }
    else record (drop_guard w) { handling = w.handling - 1; leaving = w.leaving + 1 }

-- `completed.fetch_add(1)`, and the trigger once the quota is reached.
count_step : ℕ → Worker → Worker
count_step max_requests w =
    let n = w.completed + 1 in
    record w {
      completed = n;
      leaving = w.leaving - 1;
      shutting_down = if ltb 0 max_requests && leb max_requests n then true else w.shutting_down;
    }

finish_step : Worker → Worker
finish_step w = record (drop_guard w) { streaming = w.streaming - 1 }

abbrev some_if : Bool → Worker → Option Worker
some_if b w = if b then some w else none

-- One step; `none` if no task can make it.
unfoldable pub act : ℕ → Worker → Action → Option Worker
unfolding arrive_step enter_step leave_step count_step finish_step
act max_requests w arrive = some (arrive_step w)
act max_requests w enter = some_if (ltb 0 w.admitted) (enter_step w)
act max_requests w (leave streams) = some_if (ltb 0 w.handling) (leave_step streams w)
act max_requests w count = some_if (ltb 0 w.leaving) (count_step max_requests w)
act max_requests w abandon = some_if (ltb 0 w.handling) (cancel_worker w)
act max_requests w finish_stream = some_if (ltb 0 w.streaming) (finish_step w)
act max_requests w stop = some (record w { shutting_down = true })

-- Any interleaving of the tasks.
unfoldable pub run : ℕ → Worker → List Action → Option Worker
run max_requests w [] = some w
run max_requests w (a ∷ acts) = elim (act max_requests w a) [
  | some w' ↦ run max_requests w' acts
  | none ↦ none
]
