-- ===== src/Server/Accept.antt =====
-- src/server.rs: the accept loops of `serve`, one for each listener, and `connection_builder`.
use rustasgi.Base.{
  ℕ, Bool, true, false, List, [], ◌∷◌, ◌++◌, Option, none, some, ltb, if◌then◌else◌,
}

-- What `spawn_connection` is told about a connection.
pub record Endpoint : Type 0 where
  pub client_host : List ℕ
  pub client_port : ℕ
  pub server_host : List ℕ
  pub server_port : ℕ
  pub is_tls : Bool

-- How `acceptor.accept(stream).await` goes on: it may never end.
pub data Handshake : Type 0 where
  completed failed pending : Handshake

-- A connection of a TCP listener: the client's `SocketAddr` as a text, and its port.
pub record TcpClient : Type 0 where
  pub addr : List ℕ
  pub port : ℕ
  pub nodelay_ok : Bool
  pub handshake : Handshake

-- One iteration: what `is_set()` says, and what the select yields. Its branches are polled in a
-- random order, so a shutdown does not exclude an accepted connection.
pub data Yield (C : Type 0) : Type 0 where
  woken : Yield C
  accept_error : Yield C
  accepted : C → Yield C

pub record Turn (C : Type 0) : Type 0 where
  pub is_set : Bool
  pub yields : Yield C

pub data Effect : Type 0 where
  warn_accept warn_nodelay warn_handshake : Effect
  -- `inc_tls_handshake` and `inc_tls_handshake_error`.
  handshake_counted handshake_error_counted : Effect
  spawn : Endpoint → Effect

-- How a loop stands when the turns are over: it left, it waits in its select, or in a handshake.
pub data Stand : Type 0 where
  left waiting in_handshake : Stand

-- The effects of a turn, and whether the loop stays in it or has left.
abbrev pub Result : Type 0
Result = List Effect × Option Stand

abbrev pub nodelay : TcpClient → List Effect
nodelay c = if c.nodelay_ok then [] else warn_nodelay ∷ []

module _ (local_ip : List ℕ) (local_port : ℕ) where
  abbrev pub tcp_endpoint : TcpClient → Bool → Endpoint
  tcp_endpoint c is_tls = record {
    client_host = c.addr;
    client_port = c.port;
    server_host = local_ip;
    server_port = local_port;
    is_tls = is_tls;
  }

  unfoldable pub after_handshake : TcpClient → Handshake → Result
  after_handshake c completed =
      (nodelay c ++ handshake_counted ∷ spawn (tcp_endpoint c true) ∷ [], none)
  after_handshake c failed = (nodelay c ++ handshake_error_counted ∷ warn_handshake ∷ [], none)
  after_handshake c pending = (nodelay c, some in_handshake)

  unfoldable pub tcp_yield : Bool → Yield TcpClient → Result
  unfolding after_handshake
  tcp_yield tls woken = ([], some left)
  tcp_yield tls accept_error = (warn_accept ∷ [], none)
  tcp_yield true (accepted c) = after_handshake c c.handshake
  tcp_yield false (accepted c) = (nodelay c ++ spawn (tcp_endpoint c false) ∷ [], none)

  -- One iteration of the loop over a TCP listener.
  unfoldable pub tcp_turn : Bool → Turn TcpClient → Result
  unfolding tcp_yield
  tcp_turn tls t = if t.is_set then ([], some left) else tcp_yield tls t.yields

-- The peer of a Unix connection, by its path if it has one.
abbrev pub path_or_empty : Option (List ℕ) → List ℕ
path_or_empty none = []
path_or_empty (some p) = p

unix_yield : List ℕ → Yield (Option (List ℕ)) → Result
unix_yield path woken = ([], some left)
unix_yield path accept_error = (warn_accept ∷ [], none)
unix_yield path (accepted peer) = (
  spawn (record {
    client_host = path_or_empty peer;
    client_port = 0;
    server_host = path;
    server_port = 0;
    is_tls = false;
  })
      ∷ [],
  none,
)

-- One iteration of the loop over a Unix listener.
unfoldable pub unix_turn : List ℕ → Turn (Option (List ℕ)) → Result
unfolding unix_yield
unix_turn path t = if t.is_set then ([], some left) else unix_yield path t.yields

-- The rest of a loop behind a turn.
abbrev pub go_on : Result → List Effect × Stand → List Effect × Stand
go_on (es, some s) later = (es, s)
go_on (es, none) (es', s) = (es ++ es', s)

-- The `loop` over either.
module _ {C : Type 0} where
  unfoldable pub accept_loop : (Turn C → Result) → List (Turn C) → List Effect × Stand
  accept_loop turn [] = ([], waiting)
  accept_loop turn (t ∷ ts) = let later = accept_loop turn ts in go_on (turn t) later

-- `connection_builder`: hyper's header timeout in seconds, if it is set.
unfoldable pub connection_builder : ℕ → Option ℕ
connection_builder keep_alive_secs = if ltb 0 keep_alive_secs then some keep_alive_secs else none
