-- ===== src/Tests.antt =====
-- Runs of the model on concrete inputs, with stand-ins for the libraries.
pub mod Crates
pub mod Pipeline
pub mod Device
pub mod Hunting
pub mod Indicators
pub mod Triage
pub mod Response
pub mod Validators
pub mod Inputs
pub mod Tokens
pub mod Reads
