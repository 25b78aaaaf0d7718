-- ===== src/Core.antt =====
-- crates/modelrelay-server/src/lib.rs: the scheduler state behind one lock, and its operations.
pub mod State
pub mod Workers
pub mod Selection
pub mod Dispatch
pub mod Responses
pub mod Lifecycle
pub mod Step
pub mod Views
pub mod Bounds
pub mod Tests
