-- ===== src/Connection/Posting.antt =====
-- A message from one connection of connection.cpp to another, whose bytes arrive.
use native.Mathlib.Nat.{mod-eq_of_lt}
use lnetlib.Base.{
  ℕ, ◌+◌, ◌^◌, ◌<◌, ◌≡◌, refl, sym, ap, ◌∙◌, false, List, [], ◌∷◌, ◌++◌, append-nil, append_assoc,
  none, some, All, length, drop, drop-append,
}
use lnetlib.Bytes.{Endian, store}
use lnetlib.Streambuf.{Streambuf}
use lnetlib.Stream.OStream.{OStream, ostream, destroy}
use lnetlib.Stream.Reading.{istream-eq, istream-Left}
use lnetlib.Stream.Writing.{ostream-Holds}
use lnetlib.Stream.RoundTrip.{Field, Fits, encode_all, write_fields, write_fields-Wrote}
use lnetlib.Stream.Sending.{destroy_lem}
use lnetlib.Connection.State.{Package, Delivery, received, called, Connection, Program}
use lnetlib.Connection.Sending.{create_package, send_package, dispatch_slot, create_stream}
use lnetlib.Connection.Receiving.{find}
use lnetlib.Connection.Writes.{writes}
use lnetlib.Connection.WriteQueue.{dispatch_free, send_package-writes}
use lnetlib.Connection.Reads.{deliveries, Inbox, serve_times}
use lnetlib.Connection.Frames.{
  Message, IsMessage, message_bytes, frame, arrived, delivery_of, route_one, IsCalm,
}
use lnetlib.Connection.Framing.{Waiting, frame_lem}
use lnetlib.Connection.Arrival.{arrive}
use lnetlib.Connection.EndToEnd.{flatten, wire, create_package-frame}

-- The bytes that a connection has written since it was `c`.
abbrev pub new_bytes : {B : Streambuf} {K : Type 0} → Connection B K → Connection B K → List ℕ
new_bytes c c' = wire (drop (length (writes c.trace)) (writes c'.trace))

-- The body of a message, as its stream has it.
pub body_bytes :
    (B : Streambuf) (e : Endian) (m : Message)
    → IsMessage m
    → B.bytes (delivery_of B e m).body ≡ m.payload
body_bytes B e m v =
    let framed : B.bytes (arrived B e m) ≡ message_bytes e m =
      simp (B.bytes-sputn, B.bytes-new_buffer) in
    ap (λ s. B.bytes s.buffer)
      (sym (istream-eq B e {W = ℕ} (arrived B e m) 0 0 m.command m.uid m.payload v.0 v.1 framed))
    ∙ (istream-Left B e ℕ (arrived B e m) 0 0 m.command m.uid m.payload v.0 v.1 framed).1

module _ (B : Streambuf) (e : Endian) {K : Type 0} where
  -- One package more has been written.
  pub new_bytes-flatten :
      (c c' : Connection B K) (pkg : Package B)
      → writes c'.trace ≡ writes c.trace ++ pkg ∷ []
      → new_bytes c c' ≡ flatten pkg.buffer
  new_bytes-flatten c c' pkg one =
      ap (λ ps. wire (drop (length (writes c.trace)) ps)) one
      ∙ ap wire (drop-append (writes c.trace) (pkg ∷ []))
      ∙ append-nil _

  pub new_bytes-frame :
      (c c' : Connection B K) (b : B.Buffer) (m : Message)
      → writes c'.trace ≡ writes c.trace ++ create_package B e b ∷ []
      → IsMessage m
      → B.bytes b ≡ message_bytes e m
      → new_bytes c c' ≡ frame e m
  new_bytes-frame c c' b m one v holds =
      new_bytes-flatten c c' (create_package B e b) one ∙ create_package-frame B e b m v holds

  -- A stream that is opened, written and destroyed, on a connection that is free by then.
  pub sends :
      (c c1 : Connection B K) (command : ℕ) (gs : List Field)
      → c1.socket_locked ≡ false
      → command < 2 ^ 64
      → All Fits gs
      → let s = (create_stream B e c command).0 in
        (t : OStream B (Connection B K)) × (b : B.Buffer) × (write_fields B e s gs ≡ some t)
        × (destroy B e t c1 ≡ some (send_package (create_package B e b) c1))
        × (B.bytes b
            ≡ message_bytes e
                (record { command = command; uid = c.uid_counter; payload = encode_all e gs }))
  unfolding create_stream
  sends c c1 command gs free small fits =
      let opened = (create_stream B e c command).0 in
      let (t, done, (b, owned, bytes), sended, uid, slots) =
        write_fields-Wrote B e opened (store e 8 command ++ store e 8 c.uid_counter) gs fits
          (rw (mod-eq_of_lt small) at (ostream-Holds B e (Connection B K) command c.uid_counter)) in
      (
        t,
        b,
        done,
        destroy_lem B e t (dispatch_slot B e) b c1 (sended ∙ (unfold ostream in refl)) slots owned
            ∙ dispatch_free B e b c1 free,
        bytes ∙ append_assoc (store e 8 command) (store e 8 c.uid_counter) (encode_all e gs),
      )

-- Bytes that arrive at a connection that has read all that came.
pub arrive_waits :
    {B : Streambuf} {K : Type 0} (bs cs : List ℕ) (x : Inbox B K)
    → Waiting x []
    → bs ≡ cs
    → Waiting (arrive bs x) (cs ++ [])
arrive_waits bs cs x (done, asked, count, there) same =
    (done, asked, count, rw (there, same, append-nil) refl)

module _ (B : Streambuf) (e : Endian) {K : Type 0} (p : Program B K) (calm : IsCalm B e p) where
  -- A message that a callback waits for.
  pub hears :
      (j k : ℕ) (x : Inbox B K) (m : Message) (cb : K)
      → IsMessage m
      → Waiting x (frame e m ++ [])
      → find m.uid x.conn.callbacks ≡ some cb
      → (x' : Inbox B K) × (serve_times B e p j k 2 x ≡ some x')
        × (deliveries x'.conn.trace ≡ deliveries x.conn.trace ++ called cb (delivery_of B e m) ∷ [])
  hears j k x m cb v w waits =
      let (x', done, w', delivered, left) = frame_lem B e p calm j k x m [] v w in
      (
        x',
        done,
        delivered ∙ ap (λ d. deliveries x.conn.trace ++ d ∷ []) (rw (waits, route_one) refl),
      )

  -- A message that no callback waits for.
  pub hears_received :
      (j k : ℕ) (x : Inbox B K) (m : Message)
      → IsMessage m
      → Waiting x (frame e m ++ [])
      → find m.uid x.conn.callbacks ≡ none
      → (x' : Inbox B K) × (serve_times B e p j k 2 x ≡ some x')
        × (deliveries x'.conn.trace ≡ deliveries x.conn.trace ++ received (delivery_of B e m) ∷ [])
  hears_received j k x m v w missing =
      let (x', done, w', delivered, left) = frame_lem B e p calm j k x m [] v w in
      (
        x',
        done,
        delivered ∙ ap (λ d. deliveries x.conn.trace ++ d ∷ []) (rw (missing, route_one) refl),
      )

  -- One end opens a stream without a callback, writes any values and lets the stream go, and the
  -- other end reads the bytes that were written: nothing fails on the way, and it emits `received`,
  -- once and nothing else, with a stream that has the command, the uid and the values. The one end
  -- must be free, the other must wait for a message and have no callback for the uid.
  pub posts :
      {L : Type 0} (j k command : ℕ) (gs : List Field) (c : Connection B L) (y : Inbox B K)
      → c.socket_locked ≡ false
      → Waiting y []
      → find c.uid_counter y.conn.callbacks ≡ none
      → command < 2 ^ 64
      → c.uid_counter < 2 ^ 64
      → All Fits gs
      → length (encode_all e gs) + 16 < 2 ^ 64
      → let (s, c1) = create_stream B e c command in
        (t : OStream B (Connection B L)) × (c2 : Connection B L) × (y' : Inbox B K) × (d : Delivery
          B)
        × (write_fields B e s gs ≡ some t)
        × (destroy B e t c1 ≡ some c2)
        × (serve_times B e p j k 2 (arrive (new_bytes c c2) y) ≡ some y')
        × (deliveries y'.conn.trace ≡ deliveries y.conn.trace ++ received d ∷ [])
        × ((d.command ≡ command) × (d.uid ≡ s.uid) × (B.bytes d.body ≡ encode_all e gs))
  unfolding create_stream
  posts j k command gs c y free w missing small_command small_uid fits whole =
      let c1 : Connection B _ = (create_stream B e c command).1 in
      let (t, b, done, destroyed, bytes) = sends B e c c1 command gs free small_command fits in
      let c2 : Connection B _ = send_package (create_package B e b) c1 in
      let m : Message = record {
        command = command;
        uid = c.uid_counter;
        payload = encode_all e gs;
      } in
      let v : IsMessage m = (small_command, small_uid, whole) in
      let sent : new_bytes c c2 ≡ frame e m =
        new_bytes-frame B e c c2 b m (send_package-writes (create_package B e b) c1) v bytes in
      let (y', heard, delivered) =
        hears_received j k (arrive (new_bytes c c2) y) m v
          (arrive_waits (new_bytes c c2) (frame e m) y w sent) missing in
      (
        t,
        c2,
        y',
        delivery_of B e m,
        done,
        destroyed,
        heard,
        delivered,
        (refl, (unfold ostream in refl), body_bytes B e m v),
      )
