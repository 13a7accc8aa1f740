-- ===== src/Server/Shutdown.antt =====
-- src/server.rs: `Shutdown` and `ShutdownKind`. `tokio::sync::Notify` is an interface.
use rustasgi.Base.{ℕ, ◌≡◌, Bool, true, false, not, ◌&&◌, ◌||◌, List, [], ◌∷◌, if◌then◌else◌, ◌==◌}

pub data ShutdownKind : Type 0 where
  graceful quick : ShutdownKind

-- What the code relies on: `notify_waiters` wakes the tasks that wait at that moment, and keeps
-- nothing for those that come later. Tasks are numbered.
pub record Notify : Type 1 where
  pub State : Type 0
  pub new : State
  -- A task calls `notified().await`.
  pub register : State → ℕ → State
  pub notify_waiters : State → State
  pub is_waiting : State → ℕ → Bool
  pub is_woken : State → ℕ → Bool
  pub register_waits :
      (s : State) (t u : ℕ) → is_waiting (register s t) u ≡ (t == u || is_waiting s u)
  pub register_woken :
      (s : State) (t u : ℕ) → is_woken (register s t) u ≡ (is_woken s u && not (t == u))
  pub notify_wakes :
      (s : State) (t : ℕ) → is_woken (notify_waiters s) t ≡ (is_woken s t || is_waiting s t)

-- The two atomics and the waiters.
pub record Shutdown (n : Notify) : Type 0 where
  pub flag : Bool
  pub quick_flag : Bool
  pub notify : n.State

abbrev pub is_quick : ShutdownKind → Bool
is_quick quick = true
is_quick graceful = false

module _ (n : Notify) where
  unfoldable pub new : Shutdown n
  new = record { flag = false; quick_flag = false; notify = n.new }

  unfoldable pub trigger : ShutdownKind → Shutdown n → Shutdown n
  trigger kind s = record {
    flag = true;
    quick_flag = is_quick kind || s.quick_flag;
    notify = if s.flag then s.notify else n.notify_waiters s.notify;
  }

  unfoldable pub is_set : Shutdown n → Bool
  is_set s = s.flag

  unfoldable pub kind : Shutdown n → ShutdownKind
  kind s = if s.quick_flag then quick else graceful

  -- `wait()` of a task, up to the point where it parks.
  unfoldable pub wait : ℕ → Shutdown n → Shutdown n
  wait t s = record { flag = s.flag; quick_flag = s.quick_flag; notify = n.register s.notify t }

  unfoldable pub trigger_all : List ShutdownKind → Shutdown n → Shutdown n
  unfolding trigger
  trigger_all [] s = s
  trigger_all (k ∷ ks) s = trigger_all ks (trigger k s)
