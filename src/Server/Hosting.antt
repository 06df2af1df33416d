-- ===== src/Server/Hosting.antt =====
-- A server (server.cpp) and one of its connections (connection.cpp): what the connection emits goes
-- to the slots that add_connection has connected. The program's own slots leave both alone here.
use lnetlib.Base.{
  ℕ, suc, ◌≡◌, ◌||◌, List, [], ◌∷◌, ◌++◌, Option, none, some, ◌>>=◌, ◌==◌, if◌then◌else◌,
}
use lnetlib.Bytes.{Endian, pos}
use lnetlib.Streambuf.{Streambuf}
use lnetlib.Connection.State
use lnetlib.Connection.State.{
  Connection, check_error, emit_closed, no_such_file_or_directory, ssl_short_read,
}
use lnetlib.Connection.Receiving.{find, erase}
use lnetlib.Connection.Frames.{Message}
use lnetlib.Server.State.{Server, Program, disconnected, error, received, record_effect}
use lnetlib.Server.Accepting.{remove, closed_slot, error_slot, received_slot}

module _ {B : Streambuf} {K : Type 0} where
  -- What the server does at one effect of a connection: an emission calls its slot.
  abbrev pub hear : Program → ℕ → State.Effect B K → Server → Option Server
  hear p conn State.closed s = closed_slot p conn s
  hear p conn (State.error code) s = error_slot p conn code s
  hear p conn (State.received d) s = received_slot p conn s
  hear p conn _ s = some s

  abbrev pub hear_all : Program → ℕ → List (State.Effect B K) → Server → Option Server
  hear_all p conn [] s = some s
  hear_all p conn (x ∷ xs) s = hear p conn x s >>= hear_all p conn xs

-- The slots return and leave the object alone.
pub record IsIdle (p : Program) : Type 0 where
  pub disconnected_idle : (conn : ℕ) (s : Server) → p.on_disconnected conn s ≡ some s
  pub error_idle : (conn : Option ℕ) (code : _) (s : Server) → p.on_error conn code s ≡ some s
  pub received_idle : (conn : ℕ) (s : Server) → p.on_received conn s ≡ some s

-- The server after a read of the connection has failed with a code.
abbrev pub after_failure : ℕ → ℕ → ℕ → Server → Server
after_failure aborted conn code s =
    if code == aborted
    then s
    else if (code == no_such_file_or_directory) || (code == ssl_short_read)
    then record s {
      connections = remove conn s.connections;
      sessions = erase conn s.sessions;
      trace = s.trace ++ disconnected conn ∷ [];
    }
    else record_effect (error (some conn) (pos code)) s

module _ (B : Streambuf) (e : Endian) {K : Type 0} where
  -- How many of the messages find no callback that waits for them.
  abbrev pub unasked : List (ℕ × K) → List Message → ℕ
  unasked ks [] = 0
  unasked ks (m ∷ ms) = elim (find m.uid ks) [
    | none ↦ suc (unasked ks ms)
    | some cb ↦ unasked (erase m.uid ks) ms
  ]
