-- ===== src/Client.antt =====
-- The client module.
pub mod Events
pub mod Setup
pub mod Ping
pub mod Session
pub mod Quiet
pub mod Wake
pub mod Text
pub mod Ledger
pub mod Queues
pub mod Buffers
pub mod Connect
pub mod Converse
pub mod Life
pub mod Faults
