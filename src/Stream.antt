-- ===== src/Stream.antt =====
-- The typed streams over a byte buffer: ostream.h, ostream.cpp, istream.h and istream.cpp of
-- lnetlib/lnetlib.
pub mod OStream
pub mod IStream
pub mod Writing
pub mod Reading
pub mod RoundTrip
pub mod Sending
pub mod Limits
pub mod Typing
pub mod Shapes
