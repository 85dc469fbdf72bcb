-- ===== src/Cli.antt =====
-- The command line client.
pub mod Lines
pub mod Send
