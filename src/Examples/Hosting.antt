-- ===== src/Examples/Hosting.antt =====
-- The theorems on a server with its connections at concrete inputs.
use lnetlib.Base.{ℕ, true, List, [], ◌∷◌, ◌++◌}
use lnetlib.Bytes.{little}
use lnetlib.Streambuf.{list_streambuf}
use lnetlib.Connection.State
use lnetlib.Connection.State.{Connection, connection}
use lnetlib.Connection.Reads.{Inbox}
use lnetlib.Connection.Frames.{Message, frames}
use lnetlib.Server.State.{Server, server}
use lnetlib.Client.State as Clients
use lnetlib.Client.Hosting

abbrev conn : Connection list_streambuf ℕ
conn = connection

abbrev host : Server
host = record server { running = true; connections = 7 ∷ 8 ∷ []; sessions = (7, 1) ∷ (8, 2) ∷ [] }

abbrev two : List Message
two =
    record { command = 7; uid = 0; payload = [] }
    ∷ record { command = 7; uid = 3; payload = [] }
    ∷ []

abbrev waiting : Inbox list_streambuf ℕ
waiting = record {
  conn = record connection { callbacks = (3, 9) ∷ [] };
  served = 0;
  inbound = frames little two ++ [];
}
