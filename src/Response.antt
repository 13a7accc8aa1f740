-- ===== src/Response.antt =====
-- src/server.rs, `handle_http`: how one application call becomes one response. `Start` is the loop
-- that waits for `http.response.start` and `Stream` the task that forwards the body; both poll the
-- same four sources in the order of a `biased` select. `Respond` is their composition, and `Handle` is
-- `handle_http` as a whole.
pub mod Start
pub mod Stream
pub mod StartLaws
pub mod StreamLaws
pub mod CountLaws
pub mod Respond
pub mod Accounting
pub mod RespondLaws
pub mod Handle
pub mod HandleLaws
pub mod EndLaws
pub mod Head
pub mod Exchange
pub mod ExchangeLaws
pub mod HeadLaws
use rustasgi.Base.{
  ◌≡◌, refl, arith, ℕ, ◌+◌, Bool, true, false, List, [], ◌∷◌, ◌++◌, Option, if◌then◌else◌,
}
use rustasgi.Message.{ResponseEvent}

-- What the branches of one turn of the select find when they are polled: `none` is pending.
pub record Ready : Type 0 where
  -- `rx.recv()`: an event, or `none` when every sender is gone.
  pub recv : Option (Option ResponseEvent)
  -- The application's future: whether it raised.
  pub app : Option Bool
  -- `feed_step`: whether there is more of the request body to feed.
  pub fed : Option Bool
  -- The deadline has passed.
  pub deadline : Bool
  -- `sender.send_data` fails, should it be called in this turn.
  pub client_gone : Bool

-- What a request does besides sending its response.
pub data Effect : Type 0 where
  -- The application's exception is printed.
  traceback : Effect
  -- The application is reported as timed out.
  timed_out : Effect
  -- A call of `log_access` or `log_access_task`, which leaves a line if there is a hook or the access
  -- log is on.
  log_access : (status : ℕ) (size : ℕ) → Effect
  feed_disconnect : Effect
  -- `spawn_drain_reaper`, with whether the future that it gets has already completed.
  spawn_reaper : (completed : Bool) → Effect
  -- The in-flight guard is dropped.
  drop_guard : Effect

-- One turn of a loop: another turn, or its end with a result.
pub data Turn {ℓ κ} (S : Type ℓ) (R : Type κ) : Type (ℓ ⊔ κ) where
  again : S → Turn S R
  done : S → R → Turn S R

abbrev pub outcome {ℓ κ} : {S : Type ℓ} {R : Type κ} → Turn S R → Option R
outcome (again s) = Option.none
outcome (done s r) = Option.some r

abbrev pub state_of {ℓ κ} : {S : Type ℓ} {R : Type κ} → Turn S R → S
state_of (again s) = s
state_of (done s r) = s

pub again_of_outcome {ℓ κ} :
    {S : Type ℓ} {R : Type κ} (t : Turn S R) → outcome t ≡ Option.none → t ≡ again (state_of t)
again_of_outcome (again s) h = refl
again_of_outcome (done s r) h = cc

-- `if !app_logged.swap(true) { if let Err(e) = res { e.print(py) } }`: what is printed.
abbrev pub report : Bool → Bool → List Effect
report logged raised = if logged then [] else if raised then traceback ∷ [] else []

-- The task of `spawn_drain_reaper`: the future's result, `none` for `APP_COMPLETION_TIMEOUT`.
unfoldable pub drain_reaper : Bool → Option Bool → List Effect
drain_reaper logged (Option.some raised) = report logged raised
drain_reaper logged Option.none = if logged then [] else timed_out ∷ []

-- Effects counted by a weight.
abbrev pub count_by : (Effect → ℕ) → List Effect → ℕ
count_by w [] = 0
count_by w (e ∷ es) = w e + count_by w es

pub count_by-append :
    (w : Effect → ℕ) (es fs : List Effect) → count_by w (es ++ fs) ≡ count_by w es + count_by w fs
count_by-append w [] fs = omega arith
count_by-append w (e ∷ es) fs = omega (arith, count_by-append w es fs)

-- The application's end is reported.
abbrev pub is_report : Effect → ℕ
is_report traceback = 1
is_report timed_out = 1
is_report _ = 0

abbrev pub is_log : Effect → ℕ
is_log (log_access _ _) = 1
is_log _ = 0

abbrev pub is_reaper : Effect → ℕ
is_reaper (spawn_reaper _) = 1
is_reaper _ = 0

abbrev pub is_drop : Effect → ℕ
is_drop drop_guard = 1
is_drop _ = 0
