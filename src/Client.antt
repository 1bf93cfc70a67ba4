-- ===== src/Client.antt =====
-- internal/client.
pub mod Nat
pub mod Peers
pub mod Session
pub mod Card
