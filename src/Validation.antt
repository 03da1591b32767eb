-- ===== src/Validation.antt =====
-- Validation of the parameters of the tools (src/validation.rs).
pub mod Names
pub mod Hashes
pub mod Odata
pub mod Ip
pub mod Indicators
pub mod Commands
pub mod Encoding
