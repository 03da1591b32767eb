-- ===== src/Cli.antt =====
-- The configuration that the command line resolves to (src/cli.rs).
pub mod Categories
pub mod Gating
