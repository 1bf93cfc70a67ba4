-- ===== src/Server.antt =====
-- internal/server.
pub mod Pool
pub mod Devices
pub mod Hub
pub mod Icmp
pub mod Control
