-- ===== src/Flow.antt =====
-- The inbound flow ledger of a physical ACP leg: crates/hub/src/bounded_transport/flow.rs and the
-- framing of bounded_transport/wire.rs.
pub mod Json
pub mod Identity
pub mod Budget
pub mod Control
pub mod Partial
pub mod Transfer
pub mod Line
pub mod Sse
