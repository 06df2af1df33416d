-- ===== src/Server/Accepting.antt =====
-- How a server takes connections on and lets them go (server.cpp).
use lnetlib.Base.{
  ℕ, true, false, List, [], ◌∷◌, ◌++◌, Option, none, some, ◌>>=◌, ◌==◌, if◌then◌else◌,
}
use lnetlib.Bytes.{pos}
use lnetlib.Connection.Sending.{insert}
use lnetlib.Connection.Receiving.{erase}
use lnetlib.Server.State.{
  connected, disconnected, received, Server, Program, record_effect, emit_error,
}
use lnetlib.Server.Starting.{wait_next_connection}

-- `_connections.erase(std::find(...))`: the first occurrence goes.
unfoldable pub remove : ℕ → List ℕ → List ℕ
remove conn [] = []
remove conn (c ∷ cs) = if c == conn then cs else c ∷ remove conn cs

-- The mutex is held while `connected` is emitted.
unfoldable pub add_connection : Program → ℕ → ℕ → Server → Option Server
add_connection p conn session s = if s.locked then none else (do
  s' ← p.on_connected conn (
      record_effect (connected conn) (record s {
        locked = true;
        connections = s.connections ++ conn ∷ [];
        sessions = insert conn session s.sessions;
      }))
  some (record s' { locked = false }))

unfoldable pub remove_connection : ℕ → Server → Option Server
remove_connection conn s =
    if s.locked
    then none
    else some
        (record s { connections = remove conn s.connections; sessions = erase conn s.sessions })

-- The slots that add_connection connects to the signals of a connection.
unfoldable pub closed_slot : Program → ℕ → Server → Option Server
closed_slot p conn s = do
  s' ← p.on_disconnected conn (record_effect (disconnected conn) s)
  remove_connection conn s'

unfoldable pub error_slot : Program → ℕ → ℕ → Server → Option Server
error_slot p conn code s = emit_error p (some conn) (pos code) s

unfoldable pub received_slot : Program → ℕ → Server → Option Server
received_slot p conn s = p.on_received conn (record_effect (received conn) s)

-- A session has got a connection, or the code `err` of the error by which it failed.
unfoldable pub connected_handler : Program → ℕ → Option ℕ → Option ℕ → Server → Option Server
connected_handler p session conn (some code) s = emit_error p conn (pos code) s
connected_handler p session none none s = none
connected_handler p session (some conn) none s = do
  s' ← add_connection p conn session s
  some (wait_next_connection s')
