-- ===== src/Tests/Sockets.antt =====
-- Listening sockets (src/socket.rs) over descriptors of which number 9 is refused.
use rustasgi.Base.{true, not, List, [], ◌∷◌, none, some, ◌==◌}
use rustasgi.Base.Text.{codes}
use rustasgi.Socket.{InheritedSocket, from_raw, SocketApi}

abbrev pub os : SocketApi
os = record {
  set_nonblocking = λ fd. not (fd == 9);
  local_addr = λ fd. some (codes "127.0.0.1:8000");
  pathname = λ fd. none;
  tcp_from_std = λ fd. true;
  unix_from_std = λ fd. true;
  parse_addr = λ host port. some host;
  bind = λ addr. some 5;
}

-- The second of three is refused.
abbrev pub handed : List InheritedSocket
handed =
    from_raw (codes "tcp4") 7 (codes "a")
    ∷ from_raw (codes "unix") 9 (codes "b")
    ∷ from_raw (codes "tcp6") 8 (codes "c")
    ∷ []
