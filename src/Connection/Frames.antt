-- ===== src/Connection/Frames.antt =====
-- Messages on the wire of connection.cpp: their frames, and where the receiver sends each of them.
use lnetlib.Base.{
  ℕ, ◌+◌, ◌^◌, ◌<◌, ◌≡◌, List, [], ◌∷◌, ◌++◌, none, some, arith, length, length-append,
}
use lnetlib.Bytes.{Endian, store, length-store}
use lnetlib.Streambuf.{Streambuf}
use lnetlib.Stream.IStream.{IStream}
use lnetlib.Connection.State.{Delivery, Effect, received, called, Connection, Program}
use lnetlib.Connection.Sending.{dispatch_slot}
use lnetlib.Connection.Receiving.{find, erase}
use lnetlib.Connection.Reads.{reads, deliveries}

-- A message: what an ostream wrote.
pub record Message : Type 0 where
  pub command : ℕ
  pub uid : ℕ
  pub payload : List ℕ

abbrev pub IsMessage : Message → Type 0
IsMessage m = (m.command < 2 ^ 64) × (m.uid < 2 ^ 64) × (length m.payload + 16 < 2 ^ 64)

module _ (e : Endian) where
  abbrev pub message_bytes : Message → List ℕ
  message_bytes m = store e 8 m.command ++ (store e 8 m.uid ++ m.payload)

  abbrev pub frame : Message → List ℕ
  frame m = store e 8 (length (message_bytes m)) ++ message_bytes m

  abbrev pub frames : List Message → List ℕ
  frames [] = []
  frames (m ∷ ms) = frame m ++ frames ms

pub length-message_bytes :
    (e : Endian) (m : Message) → length (message_bytes e m) ≡ length m.payload + 16
length-message_bytes e m = omega (
  arith,
  length-append (store e 8 m.command) (store e 8 m.uid ++ m.payload),
  length-append (store e 8 m.uid) m.payload,
  length-store e 8 m.command,
  length-store e 8 m.uid,
)

module _ (B : Streambuf) (e : Endian) where
  abbrev pub arrived : Message → B.Buffer
  arrived m = B.sputn B.new_buffer (message_bytes e m)

  -- The message's stream as the receiver's program gets it: past the head words.
  abbrev pub delivery_of : Message → Delivery B
  delivery_of m = record {
    command = m.command;
    uid = m.uid;
    body = B.consume 8 (B.consume 8 (arrived m));
  }

module _ (B : Streambuf) (e : Endian) {K : Type 0} where
  -- Where a message goes, and the callbacks that still wait afterwards.
  abbrev pub route_one : List (ℕ × K) → Message → Effect B K × List (ℕ × K)
  route_one ks m = elim (find m.uid ks) [
    | none ↦ (received (delivery_of B e m), ks)
    | some cb ↦ (called cb (delivery_of B e m), erase m.uid ks)
  ]

  -- Where the messages go: each to the callback that waits for its uid, once, or to `received`.
  abbrev pub routed : List (ℕ × K) → List Message → List (Effect B K)
  routed ks [] = []
  routed ks (m ∷ ms) = (route_one ks m).0 ∷ routed (route_one ks m).1 ms

  pub record SameReads (c c' : Connection B K) : Type 0 where
    pub callbacks : c'.callbacks ≡ c.callbacks
    pub asked : reads c'.trace ≡ reads c.trace
    pub delivered : deliveries c'.trace ≡ deliveries c.trace

  -- The program returns from its slots for messages, whose responses go by the connection, and
  -- leaves the read side of the connection alone; it may open streams without callbacks, send and
  -- respond.
  pub record IsCalm (p : Program B K) : Type 0 where
    pub received_calm :
        (s : IStream B (Connection B K)) (c : Connection B K)
        → s.response_dispatch ≡ dispatch_slot B e ∷ []
        → (c' : Connection B K) × (p.on_received s c ≡ some c') × SameReads c c'
    pub callback_calm :
        (cb : K) (s : IStream B (Connection B K)) (c : Connection B K)
        → s.response_dispatch ≡ dispatch_slot B e ∷ []
        → (c' : Connection B K) × (p.on_callback cb s c ≡ some c') × SameReads c c'
