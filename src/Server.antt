-- ===== src/Server.antt =====
-- The server: server.h and server.cpp of lnetlib/lnetlib.
pub mod State
pub mod Starting
pub mod Accepting
pub mod Effects
pub mod Events
pub mod Threads
pub mod Phases
pub mod Interleaving
pub mod Pairing
pub mod Races
pub mod Roster
pub mod Registry
pub mod Counting
pub mod Hosting
pub mod Owners
pub mod Custody
pub mod Turns
pub mod Fates
pub mod Admission
pub mod Listener
pub mod Launch
