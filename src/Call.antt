-- ===== src/Call.antt =====
-- src/asgi.rs and src/ws.rs: how the application is called. `Scope` builds the scopes, `Establish`
-- sets up a call over the `Bridge`, `Queue` puts messages into the queue that `receive()` reads,
-- and `App` is the application's version.
pub mod Bridge
pub mod BridgeLaws
pub mod Scope
pub mod ScopeLaws
pub mod Queue
pub mod Establish
pub mod App
pub mod AppLaws
pub mod EstablishLaws
