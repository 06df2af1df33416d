-- ===== src/Client/Hosting.antt =====
-- A client (client.cpp) and its connection (connection.cpp): what the connection emits goes to the
-- slots that connected_handler has connected.
use lnetlib.Base.{ℕ, ◌||◌, List, [], ◌∷◌, ◌++◌, map, Option, none, some, ◌>>=◌, ◌==◌, if◌then◌else◌}
use lnetlib.Bytes.{Endian, pos}
use lnetlib.Streambuf.{Streambuf}
use lnetlib.Connection.State
use lnetlib.Connection.State.{
  Delivery, Connection, check_error, emit_closed, no_such_file_or_directory, ssl_short_read,
}
use lnetlib.Connection.Receiving.{find, erase}
use lnetlib.Connection.Frames.{Message, delivery_of}
use lnetlib.Client.State as Clients
use lnetlib.Client.State.{Client, Program, Signal, emitted}
use lnetlib.Client.Connecting.{closed_slot, error_slot, received_slot}

module _ {B : Streambuf} {K : Type 0} (p : Program) (at : Delivery B → ℕ) where
  -- What the client does at one effect of its connection; `at` is the address of the stream that
  -- is made of a message.
  abbrev pub hear : State.Effect B K → Client → Option Client
  hear State.closed c = closed_slot p c
  hear (State.error code) c = error_slot p code c
  hear (State.received d) c = received_slot p (at d) c
  hear _ c = some c

  abbrev pub hear_all : List (State.Effect B K) → Client → Option Client
  hear_all [] c = some c
  hear_all (x ∷ xs) c = hear x c >>= hear_all xs

module _ (B : Streambuf) (e : Endian) {K : Type 0} where
  -- The messages that find no callback that waits for them.
  abbrev pub unasked : List (ℕ × K) → List Message → List (Delivery B)
  unasked ks [] = []
  unasked ks (m ∷ ms) = elim (find m.uid ks) [
    | none ↦ delivery_of B e m ∷ unasked ks ms
    | some cb ↦ unasked (erase m.uid ks) ms
  ]

-- The signal of the client when a read fails with a code.
abbrev pub farewell : ℕ → ℕ → List Signal
farewell aborted code =
    if code == aborted
    then []
    else if (code == no_such_file_or_directory) || (code == ssl_short_read)
    then Clients.disconnected ∷ []
    else Clients.error (pos code) ∷ []

-- The client after it has emitted signals.
abbrev pub after : List Signal → Client → Client
after xs c = record c { trace = c.trace ++ map emitted xs }
