-- ===== src/Server.antt =====
-- The server module.
pub mod Events
pub mod Setup
pub mod Transfer
pub mod Session
pub mod Wake
pub mod Rounds
pub mod Echo
pub mod Live
pub mod Guards
pub mod Quiet
pub mod Served
pub mod Queues
pub mod Posts
pub mod Serve
pub mod TenRounds
pub mod Teardown
pub mod Start
pub mod Life
pub mod Buffers
pub mod Mappings
