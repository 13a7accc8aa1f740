-- ===== src/Socket.antt =====
-- src/socket.rs: inherited and fresh listening sockets, with the file descriptors that are closed.
pub mod Laws
use rustasgi.Base.{
  ℕ, Bool, true, false, not, ◌||◌, List, [], ◌∷◌, ◌++◌, Option, none, some, is_empty, if◌then◌else◌,
  Result, ok, err, map,
}
use rustasgi.Base.Text.{bytes_eq, codes}

-- `InheritedSocket`: `OwnedFd` is its number, which is closed when the value is dropped.
pub record InheritedSocket : Type 0 where
  pub family : List ℕ
  pub fd : ℕ
  pub description : List ℕ

-- `InheritedSocket::from_raw`.
unfoldable pub from_raw : List ℕ → ℕ → List ℕ → InheritedSocket
from_raw family fd description = record { family = family; fd = fd; description = description }

-- `SocketAddr` as its text.
pub data BoundListener : Type 0 where
  tcp : (listener : ℕ) (local description : List ℕ) → BoundListener
  unix : (listener : ℕ) (path description : List ℕ) → BoundListener

-- `BoundListener::description`.
abbrev pub description : BoundListener → List ℕ
description (tcp listener local d) = d
description (unix listener path d) = d

-- The errors, each a text of its own.
pub data SocketError : Type 0 where
  set_nonblocking getsockname tokio_tcp tokio_unix no_sockets : SocketError
  unsupported_family : List ℕ → SocketError
  invalid_address bind_failed : SocketError

-- The calls of std and tokio on a descriptor: what succeeds, and the names that they read.
pub record SocketApi : Type 0 where
  pub set_nonblocking : ℕ → Bool
  -- `local_addr()` of a TCP listener, as the text of the address.
  pub local_addr : ℕ → Option (List ℕ)
  -- `local_addr().ok().and_then(|a| a.as_pathname()..)` of a Unix listener.
  pub pathname : ℕ → Option (List ℕ)
  pub tcp_from_std : ℕ → Bool
  pub unix_from_std : ℕ → Bool
  -- `"{host}:{port}".parse::<SocketAddr>()`, and `TcpListener::bind`, which gives a new descriptor.
  pub parse_addr : List ℕ → ℕ → Option (List ℕ)
  pub bind : List ℕ → Option ℕ

abbrev pub or_unnamed : Option (List ℕ) → List ℕ
or_unnamed (some path) = path
or_unnamed none = codes "<unnamed unix socket>"

-- The arms "tcp4" | "tcp6" | "tcp".
abbrev pub is_tcp : List ℕ → Bool
is_tcp family =
    bytes_eq family (codes "tcp4")
    || bytes_eq family (codes "tcp6")
    || bytes_eq family (codes "tcp")

abbrev pub fd_of : BoundListener → ℕ
fd_of (tcp fd local d) = fd
fd_of (unix fd path d) = fd

abbrev pub fds : List InheritedSocket → List ℕ
fds [] = []
fds (s ∷ ss) = s.fd ∷ fds ss

-- `if out.is_empty()`.
unfoldable pub not_empty :
    Result SocketError (List BoundListener) → Result SocketError (List BoundListener)
not_empty (err e) = err e
not_empty (ok out) = if is_empty out then err no_sockets else ok out

module _ (os : SocketApi) where
  -- One arm of the `match` for TCP: a failing call drops the listener of std, so its descriptor.
  unfoldable pub bind_tcp : InheritedSocket → Result SocketError BoundListener
  bind_tcp s =
      if not (os.set_nonblocking s.fd) then err set_nonblocking else elim (os.local_addr s.fd) [
        | none ↦ err getsockname
        | some local ↦
            if os.tcp_from_std s.fd then ok (tcp s.fd local s.description) else err tokio_tcp
      ]

  unfoldable pub bind_unix : InheritedSocket → Result SocketError BoundListener
  bind_unix s =
      if not (os.set_nonblocking s.fd)
      then err set_nonblocking
      else if os.unix_from_std s.fd
      then ok (unix s.fd (or_unnamed (os.pathname s.fd)) s.description)
      else err tokio_unix

  -- The `match sock.family.as_str()`, on Unix.
  unfoldable pub bind_one : InheritedSocket → Result SocketError BoundListener
  unfolding bind_tcp bind_unix
  bind_one s =
      if is_tcp s.family
      then bind_tcp s
      else if bytes_eq s.family (codes "unix")
      then bind_unix s
      else err (unsupported_family s.family)

  -- The loop with what it has pushed to `out`. On an error `?` returns, which drops the descriptor at
  -- hand, the listeners of `out`, and the sockets that the loop has not reached: the second
  -- component lists what is closed.
  unfoldable pub bind_loop :
      List BoundListener → List InheritedSocket → Result SocketError (List BoundListener) × List ℕ
  unfolding bind_one
  bind_loop out [] = (ok out, [])
  bind_loop out (s ∷ ss) = elim (bind_one s) [
    | err e ↦ (err e, s.fd ∷ fds ss ++ map fd_of out)
    | ok l ↦ bind_loop (out ++ l ∷ []) ss
  ]

  unfoldable pub bind_inherited :
      List InheritedSocket → Result SocketError (List BoundListener) × List ℕ
  unfolding bind_loop not_empty
  bind_inherited sockets = let (result, closed) = bind_loop [] sockets in (not_empty result, closed)

  -- The descriptor that a failing `local_addr` drops is the second component.
  unfoldable pub bind_standalone : List ℕ → ℕ → Result SocketError (List BoundListener) × List ℕ
  bind_standalone host port = elim (os.parse_addr host port) [
    | none ↦ (err invalid_address, [])
    | some addr ↦ elim (os.bind addr) [
      | none ↦ (err bind_failed, [])
      | some fd ↦ elim (os.local_addr fd) [
        | none ↦ (err getsockname, fd ∷ [])
        | some local ↦ (ok (tcp fd local (codes "http://" ++ local) ∷ []), [])
      ]
    ]
  ]
