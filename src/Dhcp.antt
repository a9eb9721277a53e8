-- ===== src/Dhcp.antt =====
-- dhcp-server: addresses, validation, authentication, the lease database and the HTTP handlers.
pub mod Address
pub mod Database
pub mod Model
pub mod Leases
pub mod Validation
pub mod Auth
pub mod Messages
pub mod Server
pub mod Samples
