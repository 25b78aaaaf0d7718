-- ===== src/Daemon.antt =====
-- crates/modelrelay-worker/src/lib.rs: the worker daemon, which connects to the proxy server and
-- forwards its requests to a backend.
pub mod Config
pub mod Forward
pub mod Session
pub mod Reconnect
mod Tests
