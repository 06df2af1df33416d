-- ===== src/Server/State.antt =====
-- The state of a server, its signals, and its configuration (server.h and server.cpp).
use lnetlib.Base.{ℕ, Bool, true, false, List, [], ◌∷◌, ◌++◌, Option, none, some, if◌then◌else◌}
use lnetlib.Bytes.{ℤ, pos}

pub data ThreadPolicy : Type 0 where
  one_per_connection fixed_count : ThreadPolicy

pub data SessionKind : Type 0 where
  ssl non_ssl : SessionKind

-- What the server asks of the i/o service and of its signals. A connection and a session are known
-- by the address of their object; `error` has no connection where the source passes a null pointer.
pub data Effect : Type 0 where
  session_started : SessionKind → Effect
  thread_started : Effect
  service_ran : Effect
  service_stopped : Effect
  connected : ℕ → Effect
  disconnected : ℕ → Effect
  error : Option ℕ → ℤ → Effect
  received : ℕ → Effect

-- `encryption_enabled` and `last_error` are what the shared encryption object says; `stopped` is
-- whether the i/o service has been stopped, and `locked` whether the server's mutex is held.
pub record Server : Type 0 where
  pub running : Bool
  pub thread_policy : ThreadPolicy
  pub thread_count : ℤ
  pub encryption_enabled : Bool
  pub last_error : List ℕ
  pub listening : Bool
  pub stopped : Bool
  pub locked : Bool
  pub connections : List ℕ
  pub sessions : List (ℕ × ℕ)
  pub trace : List Effect

-- What the program's slots do with the server. `none`: a slot never returns.
pub record Program : Type 0 where
  pub on_connected : ℕ → Server → Option Server
  pub on_disconnected : ℕ → Server → Option Server
  pub on_error : Option ℕ → ℤ → Server → Option Server
  pub on_received : ℕ → Server → Option Server

abbrev pub record_effect : Effect → Server → Server
record_effect x s = record s { trace = s.trace ++ x ∷ [] }

-- The constructor.
unfoldable pub server : Server
server = record {
  running = false;
  thread_policy = one_per_connection;
  thread_count = pos 0;
  encryption_enabled = false;
  last_error = [];
  listening = false;
  stopped = false;
  locked = false;
  connections = [];
  sessions = [];
  trace = [];
}

unfoldable pub set_thread_policy : Server → ThreadPolicy → ℤ → Server
set_thread_policy s policy count =
    if s.running then s else record s { thread_policy = policy; thread_count = count }

-- A snapshot of the connections, taken under the mutex. `none`: the mutex is held already, by the
-- thread that asks for it.
unfoldable pub get_connections : Server → Option (List ℕ)
get_connections s = if s.locked then none else some s.connections

unfoldable pub emit_error : Program → Option ℕ → ℤ → Server → Option Server
emit_error p conn code s = p.on_error conn code (record_effect (error conn code) s)

unfoldable pub stop : Server → Server
stop s =
    if s.running
    then record (record_effect service_stopped s) { stopped = true; running = false }
    else s
