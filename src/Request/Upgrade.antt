-- ===== src/Request/Upgrade.antt =====
-- src/ws.rs: `is_websocket_upgrade`; src/server.rs: `handle_request` and the answer of
-- `handle_websocket_upgrade`.
use rustasgi.Base.{
  is_empty, ℕ, Bool, false, ◌&&◌, List, [], Option, none, some, any, if◌then◌else◌, ◌==◌,
}
use rustasgi.Base.Text.{codes, bytes_eq, split, to_ascii_lowercase}
use rustasgi.Challenge.{Entries}
use rustasgi.Message.{get_or}
use rustasgi.Request.Front.{
  HttpRequest, Place, Platform, Front, front, Reply, bind_str, header_get, status_response,
}

-- `a.eq_ignore_ascii_case(b)`.
unfoldable pub eq_ignore_ascii_case : List ℕ → List ℕ → Bool
eq_ignore_ascii_case a b = bytes_eq (to_ascii_lowercase a) (to_ascii_lowercase b)

-- What is answered to a request that asks for an upgrade: an error, or 101 with the accept key.
pub data Upgrade : Type 0 where
  reject : Reply → Upgrade
  switch : (accept_key : List ℕ) → Upgrade

-- `trim` is `str::trim`, and `derive_accept_key` is tungstenite's.
module _ (io : Platform) (trim : List ℕ → List ℕ) (derive_accept_key : List ℕ → List ℕ) where
  unfoldable pub upgrade_ok : Option (List ℕ) → Bool
  upgrade_ok none = false
  upgrade_ok (some v) = eq_ignore_ascii_case v (codes "websocket")

  unfoldable pub connection_ok : Option (List ℕ) → Bool
  connection_ok none = false
  connection_ok (some v) =
      any (λ t. eq_ignore_ascii_case (trim t) (codes "upgrade")) (split (λ c. c == b',') v)

  unfoldable pub is_websocket_upgrade : HttpRequest → Bool
  unfolding upgrade_ok connection_ok
  is_websocket_upgrade req =
      upgrade_ok (bind_str io (header_get (codes "upgrade") req.headers))
      && connection_ok (bind_str io (header_get (codes "connection") req.headers))
      && bytes_eq req.method (codes "GET")

  unfoldable pub upgrade_reply : HttpRequest → Upgrade
  upgrade_reply req =
      let key = get_or (bind_str io (header_get (codes "sec-websocket-key") req.headers)) [] in
      if is_empty key
      then reject (status_response io 400 (codes "Missing Sec-WebSocket-Key"))
      else switch (derive_accept_key key)

  -- `handle_request`.
  pub data Dispatch : Type 0 where
    upgrade : Upgrade → Dispatch
    http : Front → Dispatch

  unfoldable pub handle_request : Entries → Place → HttpRequest → Dispatch
  handle_request store place req =
      if is_websocket_upgrade req
      then upgrade (upgrade_reply req)
      else http (front io store place req)
