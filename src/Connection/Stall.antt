-- ===== src/Connection/Stall.antt =====
-- A frame of no bytes at the read handlers of connection.cpp.
use lnetlib.Streambuf.{Streambuf}
use lnetlib.Connection.State.{Connection}
