-- ===== src/Acp.antt =====
-- The connection to agents: crates/hub/src/acp.
pub mod SessionList
