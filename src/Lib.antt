-- ===== src/Lib.antt =====
-- Verification of the ModelRelay proxy server: a scheduler between HTTP clients, which submit
-- requests for models, and workers, which register over WebSocket and answer them.
--
-- The program's parts. The server's core is `ProxyServerCore` (crates/modelrelay-server/src/lib.rs),
-- one value behind a lock. The HTTP routes submit requests to it and wait on a channel for the
-- response; each worker's socket registers the worker, takes the messages that the core has put
-- aside for it, and passes on what the worker sends. So a run of the server is a sequence of calls
-- of the core's methods, and each file models a group of these as functions from a state to a state
-- and a result. At the other end of a worker's socket runs the worker daemon
-- (crates/modelrelay-worker/src/lib.rs), which forwards the requests to a backend and connects again
-- when a connection ends. API keys admit clients and workers, and the cloud
-- service (crates/modelrelay-cloud) sells them.
--
-- Files and code:
--   Shared          helpers: Boolean tests, lists (Shared/Lists), equality tests and `contains`
--                   (Shared/Keys), `HashMap` as an association list (Shared/HashMap), `format!` of
--                   numbers, `trim` and the prefixes and lengths of texts (Shared/Text), `Result`
--                   (Shared/Results).
--   Protocol        crates/modelrelay-protocol/src/lib.rs: the messages.
--   Core/State      `ProxyServerCore`, `WorkerState`, `RequestRecord`, the result types.
--   Core/Workers    `register_worker`, `remove_worker`, the `take_pending` methods, the model lists.
--                   Proofs: Sanitize.
--   Core/Selection  `find_eligible_worker_id` and the methods that it calls. Its proofs are in
--                   Candidates (the candidate list), Choice (lowest load and rotation), Eligible
--                   (what a candidate is), Sound, Placement and Routing (the search as a whole).
--   Core/Dispatch   `submit_transport_request`, `dispatch_next_compatible`, `finish_request`, the
--                   loops of `update_worker_models` and `record_worker_pong`. Proofs: Submission,
--                   Loop, Filled (what a worker's report leaves queued), Oldest.
--   Core/Responses  the response channels: `submit_http_response_request`,
--                   `stream_http_response_chunk`, `complete_http_response`. Proofs: Frame, Owner.
--   Core/Lifecycle  `disconnect_worker`, `cancel_request`, `delete_provider`,
--                   `begin_graceful_shutdown`, `expire_graceful_shutdown`, `expire_queue_timeouts`.
--                   Proofs: Shutdown, Timeouts, Cancel, Requeue, Disconnect.
--   Core/Step       the methods as events, and histories of events.
--   Core/Bounds     the invariant of the registered workers over histories.
--   Core/Views      what the core shows of its state, `admin_workers_snapshot` to
--                   `worker_reported_load`. Proofs: Catalog.
--   Socket/Auth     crates/modelrelay-server/src/worker_socket.rs: `authenticate_connection` and the
--                   rate limit for failed attempts. Proofs: Limits, Sound.
--   Socket/Messages crates/modelrelay-server/src/worker_socket.rs: `handle_worker_message` and the end
--                   of a connection, as calls of the core. Proofs: Complete, Bounds.
--   Socket/Loop     crates/modelrelay-server/src/worker_socket.rs: `handle_authenticated_socket`, its
--                   flushes and its heartbeat. Proofs: Heartbeat, Silence, Flush, History.
--   Socket/Tests    small states for these; Socket/Loop/Tests for the loop.
--   ApiKeys         crates/modelrelay-server/src/api_keys.rs: the key format and
--                   `InMemoryApiKeyStore`. Proofs: Tidy, Granted, Format; small states in Tests.
--   Http            crates/modelrelay-server/src/http.rs: the handlers. Http/Proxy has
--                   `wildcard_handler` and `HttpRequestCancellationGuard`, Http/Stream
--                   `streaming_http_response`. Proofs: Access, Stream/Limit, Stream/Whole,
--                   Stream/Late; small states in Tests.
--   Daemon/Config   crates/modelrelay-worker/src/lib.rs: `WorkerDaemonConfig`.
--   Daemon/Forward  crates/modelrelay-worker/src/lib.rs: `forward_request`.
--   Daemon/Session  crates/modelrelay-worker/src/lib.rs: `run_session`, `handle_server_message`.
--                   Proofs: Drain, Reads, Race.
--   Daemon/Reconnect crates/modelrelay-worker/src/lib.rs: `run_with_reconnect`. Proofs: Closed.
--   Daemon/Tests    small sessions for these.
--   Cloud/Limiter   crates/modelrelay-cloud/src/state.rs: `RateLimiter`. Proofs: Window.
--   Cloud/Escape    crates/modelrelay-cloud/src/routes/dashboard.rs: `html_escape`, with its proofs.
--   Cloud/Tests     small inputs for these.
--   Core/Tests      small states on which the theorems are applied.
--
-- How the model stands to the code. A function has the name of the method; `&mut self` is an argument
-- and a result. The current time is an argument, in nanoseconds. A `HashMap` is an association list
-- whose order stands for the iteration order, which the code leaves open. A channel's sender is its
-- kind; the channels' other ends are two fields that only the model has, the requests whose
-- receiver has been dropped and what has reached a receiver. Counters are natural numbers:
-- `reported_load` saturates at the maximum of `usize` as in the code, the two id counters do not
-- reach it. The loops of `update_worker_models` and `record_worker_pong` run on fuel, one more than
-- the worker's slots; as each round takes a slot, that is enough.
--
-- Where tasks run side by side, each call under the core's lock is one step: Socket/Loop has the calls
-- of a connection with the calls of other tasks in between, Daemon/Session the events of a session in
-- the order in which they are taken, Http/Stream the polls of a body. A socket takes a number of
-- frames and then fails. The digest of the API keys, the random draws, the clock, the backend and the
-- parsing of header names are parameters.
--
-- Not modelled: JSON (derived by serde), HTTP and WebSocket input and output, the scheduling of tasks
-- and timers, a client that leaves a stream before its first event, the key store in the database,
-- the cloud service but for two parts, the web pages, the desktop app, the command lines and the
-- harnesses of the contract tests.
pub mod Shared
pub mod Protocol
pub mod Core
pub mod Socket
pub mod Daemon
pub mod ApiKeys
pub mod Http
pub mod Cloud
