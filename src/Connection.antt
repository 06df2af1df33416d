-- ===== src/Connection.antt =====
-- One end of a connection: connection.h and connection.cpp of lnetlib/lnetlib.
pub mod State
pub mod Owners
pub mod Attaching
pub mod Lifespan
pub mod Shutting
pub mod Sending
pub mod Receiving
pub mod Writes
pub mod WriteQueue
pub mod Serial
pub mod Drain
pub mod Reads
pub mod Frames
pub mod Handling
pub mod Framing
pub mod Arrival
pub mod Stall
pub mod Ending
pub mod EndToEnd
pub mod Answering
pub mod Posting
pub mod Exchange
pub mod Callbacks
pub mod Table
pub mod Awaiting
pub mod Uids
pub mod Growth
pub mod Progress
