-- ===== src/Examples/Partings.antt =====
-- The theorem on the end of a connection at concrete inputs.
use lnetlib.Base.{ℕ, Bool, true, [], ◌∷◌}
use lnetlib.Streambuf.{list_streambuf}
use lnetlib.Encryption.Files.{Text}
use lnetlib.Stream.RoundTrip.{Memory}
use lnetlib.Connection.State
use lnetlib.Connection.State.{Connection, connection}
use lnetlib.Connection.Reads.{Inbox}
use lnetlib.Server.State.{Server, server}
use lnetlib.Demo.Client.{Callback, Terminal}

abbrev near : Inbox list_streambuf Callback
near = record { conn = connection; served = 0; inbound = [] }

abbrev far : Inbox list_streambuf ℕ
far = record { conn = connection; served = 0; inbound = [] }

abbrev host : Server
host = record server { running = true; connections = 7 ∷ 8 ∷ []; sessions = (7, 1) ∷ (8, 2) ∷ [] }

abbrev blank : Terminal
blank = record { output = []; files = [] }

abbrev memory : Memory
memory = record { junk = 0; stack = [] }

abbrev any_file : Text → Bool
any_file name = true
