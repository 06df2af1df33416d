-- ===== src/Client/State.antt =====
-- The state of a client and its signals (client.h and client.cpp).
use lnetlib.Base.{ℕ, Bool, true, false, List, [], ◌∷◌, ◌++◌, Option, none, if◌then◌else◌}
use lnetlib.Bytes.{ℤ}
use lnetlib.Server.State.{SessionKind}

-- The signals of a client, with what they pass on: an error with its code, a stream by its address.
pub data Signal : Type 0 where
  refused connected disconnected : Signal
  error : ℤ → Signal
  received : ℕ → Signal

pub data Effect : Type 0 where
  emitted : Signal → Effect
  session_started : SessionKind → ℕ → Effect
  thread_started : Effect
  service_stopped : Effect

-- `encryption_enabled` and `last_error` are what the encryption object says, `stopped` is whether
-- the i/o service has been stopped. A connection and a session are known by their address.
pub record Client : Type 0 where
  pub running : Bool
  pub encryption_enabled : Bool
  pub last_error : List ℕ
  pub stopped : Bool
  pub connection : Option ℕ
  pub session : Option ℕ
  pub trace : List Effect

-- What the program's slots do with the client on each signal. `none`: a slot never returns.
abbrev pub Program : Type 0
Program = Signal → Client → Option Client

abbrev pub record_effect : Effect → Client → Client
record_effect x c = record c { trace = c.trace ++ x ∷ [] }

unfoldable pub emit : Program → Signal → Client → Option Client
emit p x c = p x (record_effect (emitted x) c)

-- The constructor.
unfoldable pub client : Client
client = record {
  running = false;
  encryption_enabled = false;
  last_error = [];
  stopped = false;
  connection = none;
  session = none;
  trace = [];
}

unfoldable pub conn : Client → Option ℕ
conn c = c.connection

unfoldable pub disconnect : Client → Client
disconnect c =
    if c.running
    then record (record_effect service_stopped c) { stopped = true; running = false }
    else c
