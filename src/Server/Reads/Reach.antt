-- ===== src/Server/Reads/Reach.antt =====
-- The actions of the read-only tools stay in their bounds.
pub mod Intel
pub mod Hosts
pub mod Devices
pub mod Entities
pub mod ThreatIntel
pub mod IncidentsAlerts
pub mod Vulnerabilities
pub mod Machines
pub mod Forensics
pub mod Downloads
