-- ===== src/Store.antt =====
-- The projection store: crates/hub/src/store.rs and crates/hub/src/store/.
pub mod Policy
pub mod Lifecycle
pub mod Messages
pub mod Cursor
pub mod Paging
pub mod Discover
pub mod Replay
pub mod Transcript
