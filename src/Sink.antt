-- ===== src/Sink.antt =====
-- src/asgi.rs and src/ws.rs: the sinks behind the application's `send()`. Each checks a message and
-- puts its event into a bounded channel, whose other end the response or WebSocket task reads.
pub mod Push
pub mod Steps
pub mod Moves
pub mod Laws
pub mod Sources
use rustasgi.Base.{
  ℕ, ◌≤◌, ◌<◌, ◌≡◌, Bool, true, false, List, [], ◌∷◌, ◌++◌, Option, none, some, length,
}
use rustasgi.Python.{PyErr}
use rustasgi.Metrics.{Metrics}

-- What a non-blocking send gives: done, no room (`TrySendError::Full`, or a future that is not
-- ready), or no receiver.
pub data Sent (E : Type 0) : Type 0 where
  sent : Sent E
  full : E → Sent E
  closed : Sent E

-- What tokio documents of both its sends, in terms of what the channel holds.
pub record SendLaws (E State : Type 0) (bound : ℕ) (is_open : State → Bool)
    (buffered : State → List E) (send : State → E → State × Sent E) : Type 0 where
  pub room :
      (s : State) (e : E)
      → is_open s ≡ true
      → length (buffered s) < bound
      → ((send s e).1 ≡ sent)
        × (buffered (send s e).0 ≡ buffered s ++ e ∷ [])
        × (is_open (send s e).0 ≡ true)
  pub no_room :
      (s : State) (e : E) → is_open s ≡ true → bound ≤ length (buffered s) → send s e ≡ (s, full e)
  pub no_receiver : (s : State) (e : E) → is_open s ≡ false → send s e ≡ (s, closed)

-- `tokio::sync::mpsc::channel(bound)` with one sender that sends one event at a time.
pub record Mpsc (E : Type 0) (bound : ℕ) : Type 1 where
  pub State : Type 0
  pub new : State
  pub try_send : State → E → State × Sent E
  -- One poll of the future `tx.send(event)`.
  pub poll_send : State → E → State × Sent E
  pub recv : State → State × Option E
  -- The receiver is dropped.
  pub close : State → State
  pub is_open : State → Bool
  pub buffered : State → List E
  pub new_open : is_open new ≡ true
  pub new_empty : buffered new ≡ []
  pub try_send_laws : SendLaws E State bound is_open buffered try_send
  pub poll_send_laws : SendLaws E State bound is_open buffered poll_send
  pub recv_none : (s : State) → is_open s ≡ true → buffered s ≡ [] → recv s ≡ (s, none)
  pub recv_first :
      (s : State) (e : E) (es : List E)
      → is_open s ≡ true
      → buffered s ≡ e ∷ es
      → ((recv s).1 ≡ some e) × (buffered (recv s).0 ≡ es) × (is_open (recv s).0 ≡ true)
  pub close_closed : (s : State) → is_open (close s) ≡ false

-- One request's or connection's channel with its flag, and the event of the awaitable that the last
-- send returned, while the application awaits it.
pub record Sink {E : Type 0} {bound : ℕ} (M : Mpsc E bound) : Type 0 where
  pub channel : M.State
  pub disconnected : Bool
  pub waiting : Option E
  pub metrics : Metrics

-- What one move answers: to the application (`accepted` is `None`, `parked` an awaitable that waits
-- for room, `resumed` and `still_waiting` what that awaitable does), or to the receiving task.
pub data Reply (E : Type 0) : Type 0 where
  accepted : E → Reply E
  parked : E → Reply E
  refused : PyErr → Reply E
  resumed : Reply E
  still_waiting : Reply E
  received : Option E → Reply E
  done : Reply E
