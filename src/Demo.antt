-- ===== src/Demo.antt =====
-- The two example programs over the library (example/server/main.cpp and example/client/main.cpp).
pub mod Commands
pub mod Input
pub mod Server
pub mod Client
pub mod Talk
pub mod Transfer
pub mod Broadcast
pub mod Farewell
pub mod Loops
pub mod Setup
pub mod Notices
pub mod Closing
pub mod Parting
