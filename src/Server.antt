-- ===== src/Server.antt =====
-- src/server.rs: the worker around the requests. `Shutdown` is the shutdown flag and its waiters,
-- `Request` one request with the tasks that it spawns, `Worker` the accounting of requests, `Drain`
-- the end of `serve`, `Watch` the background tasks, `Accept` the accept loops.
pub mod Shutdown
pub mod Worker
pub mod Request
pub mod RequestLaws
pub mod Drain
pub mod Watch
pub mod Accept
pub mod AcceptLaws
pub mod ShutdownLaws
pub mod WorkerLaws
pub mod DrainLaws
pub mod Serve
pub mod ServeLaws
pub mod OverLaws
pub mod Advance
pub mod ReturnLaws
pub mod WatchLaws
