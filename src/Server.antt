-- ===== src/Server.antt =====
-- The configuration of a node's server: core/officialhy2/config.go.
pub mod Certificates
pub mod Freshness
pub mod Addresses
pub mod Unlock
pub mod Choices
pub mod Rules
pub mod Build
pub mod Sockets
pub mod Outbounds
pub mod Families
mod Examples
