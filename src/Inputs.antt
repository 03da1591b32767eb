-- ===== src/Inputs.antt =====
-- The inputs of the mutating tools and their closed enumerations (src/server.rs).
pub mod ClosedEnum
pub mod Args
pub mod Device
pub mod Indicator
pub mod Triage
pub mod Response
pub mod Reads
pub mod Tools
