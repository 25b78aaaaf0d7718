-- ===== src/Cloud.antt =====
-- crates/modelrelay-cloud: the parts of the cloud service that decide by themselves.
pub mod Limiter
pub mod Escape
mod Tests
