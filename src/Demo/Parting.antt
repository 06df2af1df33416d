-- ===== src/Demo/Parting.antt =====
-- The command 'q' of the example client (example/client/main.cpp), with the example server
-- (example/server/main.cpp) at the other end, and the lists of the server (server.cpp). The
-- connections are taken to live as long as they are used.
use lnetlib.Base.{[]}
use lnetlib.Bytes.{Endian}
use lnetlib.Streambuf.{Streambuf}
use lnetlib.Stream.OStream.{OStream}
use lnetlib.Connection.State
use lnetlib.Connection.State.{
  Package, size, body, async_read, async_write, socket_closed, closed, Connection, wait_package,
  emit_closed,
}
use lnetlib.Connection.Frames.{Message}
use lnetlib.Server.State.{Server}
use lnetlib.Demo.Commands.{quit, number}
use lnetlib.Demo.Client.{Callback}

module _ (B : Streambuf) (e : Endian) where
  -- The message that the command 'q' sends.
  abbrev request : Connection B Callback → Message
  request c = record { command = number quit; uid = c.uid_counter; payload = [] }
