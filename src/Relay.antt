-- ===== src/Relay.antt =====
-- crates/meshcore/src/relay.rs: flood control, one module for each of its pieces.
pub mod Seen
pub mod Rate
pub mod Scheduler
pub mod Fanout
mod Tests
