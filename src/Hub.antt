-- ===== src/Hub.antt =====
-- The engine's reservations: crates/hub/src/hub/state.rs.
pub mod Operations
pub mod Sessions
pub mod ReplayLocks
pub mod Runtime
pub mod Progress
pub mod Wait
