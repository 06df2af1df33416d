-- ===== src/Signal.antt =====
-- Signals, connections and slots: lnetlib/lnetlib/lsignal/lsignal.h.
pub mod Emit
pub mod State
pub mod Connecting
pub mod Lifetime
pub mod Emitting
pub mod Laws
pub mod Lives
pub mod Calls
pub mod Copies
pub mod Nesting
pub mod Aggregating
pub mod Unlocking
pub mod Ranks
