-- ===== src/Client.antt =====
-- The client of client.h and client.cpp.
pub mod State
pub mod Connecting
pub mod Lifecycle
pub mod Owners
pub mod Hosting
