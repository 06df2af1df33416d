-- ===== src/Examples.antt =====
-- Each theorem at concrete inputs.
mod Programs
mod Streams
mod Connections
mod Servers
mod Clients
mod Signals
mod Options
mod Exchanges
mod Demos
mod Races
mod Hosting
mod Partings
mod Progress
mod Owners
mod Tables
