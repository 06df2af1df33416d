-- ===== src/Examples/Exchanges.antt =====
-- The theorems on the bytes that arrive at a connection, and on a request and its answer, at
-- concrete inputs.
use lnetlib.Base.{ℕ, ◌≡◌, refl, true, false, List, [], ◌∷◌, ◌++◌, take, drop, some, arith}
use lnetlib.Bytes.{little, store}
use lnetlib.Streambuf.{list_streambuf}
use lnetlib.Stream.OStream.{OStream, four, destroy}
use lnetlib.Stream.IStream.{IStream}
use lnetlib.Stream.RoundTrip.{Field, encode_all, write_fields}
use lnetlib.Connection.State.{
  size, body, async_read, received, Delivery, called, Connection, Program, connection, wait_package,
}
use lnetlib.Connection.Sending.{create_stream_for}
use lnetlib.Connection.Receiving.{find}
use lnetlib.Connection.Reads.{deliveries, Inbox, serve_times}
use lnetlib.Connection.Frames.{Message, frame}
use lnetlib.Connection.Arrival.{arrive}
use lnetlib.Connection.Answering.{answer_with}
use lnetlib.Connection.Posting.{new_bytes}
use lnetlib.Examples.Programs.{silent, silent-IsCalm}
use lnetlib.Connection.Exchange.{exchange}

abbrev quiet : Inbox list_streambuf ℕ
quiet = record { conn = connection; served = 0; inbound = [] }

abbrev greeting : Message
greeting = record { command = 7; uid = 0; payload = 104 ∷ 105 ∷ [] }

abbrev bytes : List ℕ
bytes = frame little greeting ++ 1 ∷ []

-- The connection once it has read the greeting.
abbrev greeted : Inbox list_streambuf ℕ
greeted = record {
  conn = record {
    is_open = true;
    socket_locked = false;
    packages = [];
    uid_counter = 0;
    callbacks = [];
    trace =
        async_read size 8
        ∷ async_read body 18
        ∷ received (record { command = 7; uid = 0; body = 104 ∷ 105 ∷ [] })
        ∷ async_read size 8
        ∷ [];
  };
  served = 2;
  inbound = [];
}

-- The greeting's bytes at once, or in two pieces with a read that cannot complete between them.
abbrev at_once : List (List ℕ × ℕ)
at_once = (frame little greeting, 2) ∷ []

abbrev in_pieces : List (List ℕ × ℕ)
in_pieces = (take 5 (frame little greeting), 1) ∷ (drop 5 (frame little greeting), 3) ∷ []

-- The answer to any message is the number 5.
abbrev five : IStream list_streambuf (Connection list_streambuf ℕ) → List Field
five s = Field.uint four 5 ∷ []

abbrev counting : Program list_streambuf ℕ
counting = record silent { on_received = answer_with list_streambuf little five }

exchange_example :
    let (s, c1) = create_stream_for list_streambuf little quiet.conn 4 9 in
    (r : OStream list_streambuf (Connection list_streambuf ℕ)) × (c2 : Connection list_streambuf ℕ)
    × (y' : Inbox list_streambuf ℕ) × (x' : Inbox list_streambuf ℕ) × (t : IStream list_streambuf
        (Connection list_streambuf ℕ))
    × (d : Delivery list_streambuf) × (write_fields list_streambuf little s (Field.uint four 3 ∷ [])
        ≡ some r)
    × (destroy list_streambuf little r c1 ≡ some c2)
    × (serve_times list_streambuf little counting 0 0 2 (arrive (new_bytes quiet.conn c2) quiet)
        ≡ some y')
    × (serve_times list_streambuf little silent 0 0 2
          (arrive (new_bytes quiet.conn y'.conn) (record quiet { conn = c2 }))
        ≡ some x')
    × (deliveries x'.conn.trace ≡ deliveries quiet.conn.trace ++ called 9 d ∷ [])
    × ((t.command ≡ 4)
        × (t.uid ≡ s.uid)
        × (list_streambuf.bytes t.buffer ≡ encode_all little (Field.uint four 3 ∷ [])))
    × ((d.command ≡ 4)
        × (d.uid ≡ s.uid)
        × (list_streambuf.bytes d.body ≡ encode_all little (five t)))
unfolding connection wait_package find store
exchange_example =
    exchange list_streambuf little silent counting five 0 0 4 9 (Field.uint four 3 ∷ []) quiet quiet
      silent-IsCalm (λ s d h. refl) ([], refl, refl, refl) ([], refl, refl, refl) refl refl refl
      (omega arith) (omega arith) (omega arith, tt) (λ s. (omega arith, tt)) (omega arith)
      (λ s. omega arith)
