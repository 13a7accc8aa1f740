-- ===== src/Lib.antt =====
-- rustasgi: a model of the ASGI server of this repository (the Rust crate under src/), and what is
-- proved of it.
--
-- A worker accepts connections and hands each request to `handle_request` (src/server.rs). A request
-- is answered in Rust (an ACME challenge, a redirect, an error), becomes a call of the Python
-- application, whose `send()` messages are validated (src/asgi.rs) and forwarded to the client, or
-- becomes a WebSocket connection (src/ws.rs). Beside the requests run the lifespan protocol
-- (src/lifespan.rs), the signal, heartbeat and certificate watchers (src/server.rs), and the renewal
-- of certificates (src/acme), which the TLS part (src/tls) loads.
--
-- Base          numbers, lists, `Result` with `?` as a bind, texts as lists of bytes; Words: texts cut
--               into parts
-- Percent       src/asgi.rs: percent_decode, hex_val
-- Python        the operations of PyO3 that the validation calls, as the interface PyApi
-- Message       src/asgi.rs: ResponseEvent, parse_send_message, extract_header_pair, as_bytes
-- Metrics       src/metrics.rs
-- Sink          src/asgi.rs, SendSink, and src/ws.rs, WsSink. Push: _push, the awaitable that it may
--               return, and the moves of both ends of the channel. Steps and Moves:
--               what each of these keeps
-- Socket        src/socket.rs
-- Cli           src/cli.rs: ServerConfig
-- Boot          src/lib.rs and src/runtime.rs. Settings: what run and run_worker take from the
--               environment. Import: import_app. Loop: start_asyncio_loop, wait_loop_running,
--               stop_asyncio_loop. Process: serve_process_on, cancel_pending_tasks. Run: run,
--               run_worker
-- Request       Front: src/server.rs, handle_http up to the call of the application, and
--               status_response. Feed: feed_step and the loop over it, with the steps
--               that the select drops. Upgrade: src/ws.rs,
--               is_websocket_upgrade, and the reply of src/server.rs, handle_websocket_upgrade
-- Response      src/server.rs, handle_http from the established call on. Start: the loop that awaits
--               http.response.start. Stream: the spawned task. Respond: their composition with
--               spawn_drain_reaper. Head: the response's head, log_access and log_access_task.
--               Exchange: what the client sees of a request. Handle:
--               handle_http as a whole
-- Call          Scope: src/asgi.rs, build_http_scope, and the scope of src/ws.rs, setup_ws_call.
--               Establish: both functions that set up a call. Queue: into_future, feed_message,
--               feed_disconnect, feed_ws. Bridge: Bridge::install. App: _call_app of
--               the bridge's Python text
-- Ws            src/ws.rs. Parse: parse_ws_message. Driver: drive_websocket.
--               Upgraded: TokioUpgraded. Inputs: what the driver takes from both sides
-- Server        src/server.rs. Shutdown: the type of that name. Request: handle_request with the
--               tasks that it spawns. Worker: the service closure of spawn_connection, with FlightGuard of src/runtime.rs. Drain: serve from the wake-up
--               to its return. Watch: watch_signals, heartbeat_loop, cert_watcher. Accept: the accept loops.
--               Serve: serve as a whole, as a step relation
-- Lifespan      src/lifespan.rs, and the decision of src/lib.rs, serve_process_on. Queue:
--               queue_put
-- Challenge     src/tls/challenge.rs. Abstract: the store by its answers, as a quotient
-- Tls           src/tls: Config (config.rs), State (reload.rs), Resolver (resolver.rs); Sni: several
--               certificates, with the set-up of TLS in src/lib.rs
-- Acme          src/acme: Account (account.rs), Install (certificate.rs), Due, Renewal and Task (renewal.rs)
-- Tests         the theorems at concrete inputs
--
-- Asynchronous code. A loop around `tokio::select!` is a function on a list of polls: one element
-- says what each branch finds when it is polled in that turn. A `biased` select takes the first
-- branch in its order that is enabled and ready. The loop's result is `again` (or `none`) while the
-- list ends before the loop does. What a request does besides its response is a list of effects in
-- their order. The concurrent requests of a worker are interleavings of actions (Server.Worker).
-- Of the branches' futures only feed_step can be dropped half done: the put that it has submitted
-- to the asyncio loop then lands behind those before it, or not at all (Request.Feed). A wait without
-- a bound that has no loop of its own (the init coroutine of an old Python, the joins of serve) is an
-- input that says whether it ends.
-- Loops over a list need no fuel; the drain loop and the wait for the asyncio loop run on fuel, and
-- their theorems give the number of rounds that is enough, since each sleeps 50 or 10 milliseconds.
--
-- Integers. Status codes and close codes are bounded by their `u16` extraction; the `u64` count of
-- sent bytes wraps as in a release build; the `i64` arithmetic of should_renew is written out on
-- signed numbers, without overflow for dates that X.509 can express.
--
-- Parameters. Python objects (PyApi) and imports (Modules), `http` and `std` texts (Platform), the
-- header map of `http` (HttpApi), tokio's Notify (Notify) and bounded channel (Mpsc), the calls on
-- sockets (SocketApi), rustls and PEM parsing (TlsLib), the ACME client (AcmeClient), the
-- file system (a function of paths, with failures as inputs), x509-parser, rcgen and the ACME server.
--
-- Not modelled: log texts, the construction of Python objects beyond whether it succeeds, the
-- microbenchmark and the module registration of src/lib.rs, and Windows.
pub mod Base
pub mod Percent
pub mod Challenge
pub mod Python
pub mod Message
pub mod Metrics
pub mod Sink
pub mod Socket
pub mod Cli
pub mod Boot
pub mod Response
pub mod Request
pub mod Call
pub mod Ws
pub mod Server
pub mod Lifespan
pub mod Tls
pub mod Acme
mod Tests
