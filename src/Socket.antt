-- ===== src/Socket.antt =====
-- crates/modelrelay-server/src/worker_socket.rs: the WebSocket side of a worker.
pub mod Auth
pub mod Messages
pub mod Loop
mod Tests
