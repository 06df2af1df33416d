-- ===== src/Examples/Progress.antt =====
-- The theorem on messages that are still arriving at concrete pieces.
use lnetlib.Base.{ℕ, ◌≡◌, refl, false, List, [], ◌∷◌, ◌++◌, map, take, drop, some, arith}
use lnetlib.Bytes.{little, store}
use lnetlib.Streambuf.{list_streambuf}
use lnetlib.Connection.State.{Effect, received, connection, wait_package}
use lnetlib.Connection.Sending.{create_package, send_package, dispatch_slot}
use lnetlib.Connection.Writes.{writes}
use lnetlib.Connection.Serial.{Net, dispatches, Reach, here, next, idle}
use lnetlib.Connection.Reads.{deliveries, Inbox}
use lnetlib.Connection.Frames.{Message, message_bytes, delivery_of}
use lnetlib.Connection.EndToEnd.{wire}
use lnetlib.Connection.Arrival.{serve_pieces}
use lnetlib.Examples.Programs.{silent, silent-IsQuiet, silent-IsCalm}
use lnetlib.Connection.Progress.{serve_pieces-submitted}

abbrev first : Message
first = record { command = 7; uid = 0; payload = 104 ∷ 105 ∷ [] }

abbrev second : Message
second = record { command = 7; uid = 3; payload = [] }

abbrev both : List Message
both = first ∷ second ∷ []

abbrev buffers : List (List ℕ)
buffers = map (message_bytes little) both

-- Both are dispatched, and the first is being written.
abbrev busy : Net list_streambuf ℕ
busy = record {
  conn =
      record (send_package (create_package list_streambuf little (message_bytes little first))
        connection) {
          packages = create_package list_streambuf little (message_bytes little second) ∷ [];
        };
  submitted = map (create_package list_streambuf little) buffers;
  completed = 0;
  failed = false;
}

both_dispatched : Reach list_streambuf little silent idle busy
unfolding dispatch_slot connection wait_package send_package
both_dispatched =
    next (next here (dispatches (message_bytes little first) _ refl))
      (dispatches (message_bytes little second) _ refl)

abbrev written : List ℕ
written = wire (writes busy.conn.trace)

-- Twelve bytes have come, then five, and not yet the rest.
abbrev pieces : List (List ℕ × ℕ)
pieces = (take 12 written, 3) ∷ (take 5 (drop 12 written), 1) ∷ []

serve_pieces-submitted_example :
    (y : Inbox list_streambuf ℕ) × (more : List (Effect list_streambuf ℕ)) × (serve_pieces
        list_streambuf little silent 0 0 pieces
        (record { conn = connection; served = 0; inbound = [] })
      ≡ some y)
    × (deliveries y.conn.trace ++ more
        ≡ map (λ m. received (delivery_of list_streambuf little m)) both)
unfolding connection wait_package send_package create_package store
serve_pieces-submitted_example =
    serve_pieces-submitted list_streambuf little silent silent 0 0 busy buffers both pieces
      (drop 5 (drop 12 written)) silent-IsQuiet silent-IsCalm both_dispatched refl
      ((omega arith, omega arith, omega arith), ((omega arith, omega arith, omega arith), tt))
      (refl, (refl, tt)) refl
