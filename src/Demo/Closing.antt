-- ===== src/Demo/Closing.antt =====
-- The example server's end of a parting (example/server/main.cpp), and what the server (server.cpp)
-- does at it.
use lnetlib.Base.{
  ℕ, ◌+◌, ◌^◌, ◌<◌, ◌≡◌, refl, ap, ◌∙◌, false, List, [], ◌∷◌, ◌++◌, append_assoc, none, some,
  length, if◌then◌else◌,
}
use lnetlib.Bytes.{Endian}
use lnetlib.Streambuf.{Streambuf}
use lnetlib.Stream.IStream.{IStream}
use lnetlib.Connection.State
use lnetlib.Connection.State.{
  Package, Delivery, size, body, async_read, async_write, socket_closed, closed, received,
  Connection, wait_package, emit_closed,
}
use lnetlib.Connection.Receiving.{find, erase, open_stream, delivery, deliver}
use lnetlib.Connection.Writes.{writes, writes-append}
use lnetlib.Connection.Reads.{Inbox, serve_times}
use lnetlib.Connection.Frames.{Message, IsMessage, message_bytes, frame, arrived, delivery_of}
use lnetlib.Connection.Handling.{given_lem}
use lnetlib.Connection.Framing.{Waiting, sized, frame_step}
use lnetlib.Connection.Posting.{new_bytes, new_bytes-flatten}
use lnetlib.Server.State.{Server, Program, disconnected}
use lnetlib.Server.State as Hosts
use lnetlib.Server.Accepting.{remove, remove_connection, closed_slot, received_slot}
use lnetlib.Connection.Ending.{IsDeaf}
use lnetlib.Server.Hosting.{hear_all, IsIdle}
use lnetlib.Demo.Commands.{quit, number}
use lnetlib.Demo.Server.{serving}
use lnetlib.Demo.Farewell.{farewell, on_received-quit}

module _ (B : Streambuf) (e : Endian) {L : Type 0} (q : State.Program B L) (p : Program) where
  -- What the server's list says once its connection has closed.
  abbrev pub forgotten : ℕ → Server → Server
  forgotten conn s = record s {
    connections = remove conn s.connections;
    sessions = erase conn s.sessions;
    trace = (s.trace ++ Hosts.received conn ∷ []) ++ disconnected conn ∷ [];
  }

  heard_lem :
      (conn n : ℕ) (d : Delivery B) (pkg : Package B) (s : Server)
      → IsIdle p
      → s.locked ≡ false
      → hear_all {K = L} p conn
          (async_read body n
            ∷ received d
            ∷ async_write pkg
            ∷ socket_closed
            ∷ closed
            ∷ async_read size 8
            ∷ [])
          s
        ≡ some (forgotten conn s)
  unfolding received_slot closed_slot remove_connection
  heard_lem conn n d pkg s idle free = rw (idle.received_idle, idle.disconnected_idle, free) refl

  -- A connection of the example server reads a Quit.
  pub parts :
      (j k conn : ℕ) (y : Inbox B L) (m : Message) (s : Server)
      → IsDeaf q
      → IsIdle p
      → s.locked ≡ false
      → m.command ≡ number quit
      → IsMessage m
      → Waiting y (frame e m ++ [])
      → find m.uid y.conn.callbacks ≡ none
      → y.conn.socket_locked ≡ false
      → y.conn.uid_counter < 2 ^ 64
      → (y' : Inbox B L) × (new : List (State.Effect B L)) × (serve_times B e
            (serving B e q)
            j
            k
            2
            y
          ≡ some y')
        × (new_bytes y.conn y'.conn ≡ frame e (farewell y.conn))
        × (y'.conn.is_open ≡ false)
        × (y'.conn.trace ≡ y.conn.trace ++ new)
        × (hear_all p conn new s ≡ some (forgotten conn s))
  unfolding deliver wait_package emit_closed State.wait_package_body
  parts j k conn y m s deaf idle free asks v w missing unlocked small =
      let t : IStream B (Connection B L) = open_stream B e (arrived B e m) j k in
      let given : delivery B e t ≡ delivery_of B e m = given_lem B e (serving B e q) j k m v in
      let d2 : Connection B L =
        State.record_effect (received (delivery B e t)) (sized B e q y.conn m) in
      let there : find t.uid y.conn.callbacks ≡ none =
        ap (λ d. find d.uid y.conn.callbacks) given ∙ missing in
      let (pkg, last, framed, answered, shut, trace, queue) =
        on_received-quit B e q t d2 (ap (λ d. d.command) given ∙ asks) small in
      let d3 : Connection B L = State.record_effect closed last in
      let delivers : deliver B e (serving B e q) (sized B e q y.conn m) t ≡ some d3 =
        rw (there, deliver) (answered ∙ deaf.closed_deaf d3) in
      let new : List (State.Effect B L) =
        async_read body (length (message_bytes e m))
        ∷ received (delivery B e t)
        ∷ async_write pkg
        ∷ socket_closed
        ∷ closed
        ∷ async_read size 8
        ∷ [] in
      let before : last.trace ≡ (d2.trace ++ async_write pkg ∷ []) ++ socket_closed ∷ [] =
        trace
        ∙ ap (λ l. (if l then d2.trace else d2.trace ++ async_write pkg ∷ []) ++ socket_closed ∷ [])
            unlocked in
      let all : (last.trace ++ closed ∷ []) ++ async_read size 8 ∷ [] ≡ y.conn.trace ++ new =
        rw before (simp append_assoc) in
      let y' : Inbox B L = record { conn = wait_package d3; served = y.served + 2; inbound = [] } in
      (
        y',
        new,
        frame_step B e (serving B e q) j k y d3 m [] v w delivers,
        new_bytes-flatten B e y.conn y'.conn pkg (ap writes all ∙ writes-append y.conn.trace new)
            ∙ framed,
        shut,
        all,
        heard_lem conn (length (message_bytes e m)) (delivery B e t) pkg s idle free,
      )
