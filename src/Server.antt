-- ===== src/Server.antt =====
-- The MCP server and its tools (src/server.rs).
pub mod Attempt
pub mod Mutation
pub mod Rejection
pub mod Tools
pub mod Dispatch
pub mod Prepare
pub mod Device
pub mod Indicators
pub mod Hunting
pub mod Triage
pub mod Response
pub mod Reads
