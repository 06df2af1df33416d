-- ===== src/Examples/Connections.antt =====
-- The theorems on connections at concrete packages, messages and histories.
use lnetlib.Base.{ℕ, ◌≡◌, ◌≢◌, refl, true, false, List, [], ◌∷◌, ◌++◌, map, some, arith}
use lnetlib.Bytes.{little}
use lnetlib.Streambuf.{list_streambuf}
use lnetlib.Connection.State.{
  Package, Connection, connection, wait_package, record_effect, error, check_error, emit_error,
}
use lnetlib.Connection.Sending.{
  create_package, send_package, write_next, write_handler, dispatch_slot, create_stream,
}
use lnetlib.Connection.Writes.{writes}
use lnetlib.Connection.Serial.{
  Net, dispatches, fails, Reach, here, next, idle, IsSerial, Reach-IsSerial,
}
use lnetlib.Connection.Drain.{complete, complete_all, Reach_failed}
use lnetlib.Connection.Reads.{Inbox}
use lnetlib.Connection.Frames.{Message, message_bytes, frames}
use lnetlib.Examples.Programs.{silent, silent-IsQuiet}
use lnetlib.Connection.Uids.{uid_after, uid_after_ne}

abbrev Conn : Type 0
Conn = Connection list_streambuf ℕ

abbrev greeting : Message
greeting = record { command = 7; uid = 0; payload = 104 ∷ 105 ∷ [] }

abbrev reply : Message
reply = record { command = 7; uid = 3; payload = [] }

abbrev buffers : List (List ℕ)
buffers = message_bytes little greeting ∷ message_bytes little reply ∷ []

abbrev packages : List (Package list_streambuf)
packages = map (create_package list_streambuf little) buffers

-- A connection on which both are dispatched, and the first or both have been written.
abbrev sent_first : Conn
sent_first =
    send_package (create_package list_streambuf little (message_bytes little greeting)) connection

abbrev after_two : Net list_streambuf ℕ
after_two = record {
  conn = record sent_first {
    packages = create_package list_streambuf little (message_bytes little reply) ∷ [];
  };
  submitted = packages;
  completed = 0;
  failed = false;
}

two_dispatched : Reach list_streambuf little silent idle after_two
unfolding dispatch_slot connection wait_package send_package
two_dispatched =
    next (next here (dispatches (message_bytes little greeting) _ refl))
      (dispatches (message_bytes little reply) _ refl)

Reach-IsSerial_example : IsSerial after_two
Reach-IsSerial_example =
    Reach-IsSerial list_streambuf little silent silent-IsQuiet after_two two_dispatched

complete_all_example :
    (c' : Conn) × (complete silent 2 after_two.conn ≡ some c')
    × (writes c'.trace ≡ writes after_two.conn.trace ++ after_two.conn.packages)
    × (c'.packages ≡ [])
    × (c'.socket_locked ≡ false)
complete_all_example = complete_all silent after_two.conn

abbrev after_failure : Net list_streambuf ℕ
after_failure = record after_two {
  conn = record_effect (error 104) after_two.conn;
  completed = 1;
  failed = true;
}

one_failed : Reach list_streambuf little silent idle after_failure
unfolding write_handler check_error emit_error connection wait_package send_package
one_failed = next two_dispatched (fails _ 104 (omega arith) refl)

abbrev after_third : Net list_streambuf ℕ
after_third = record after_failure {
  conn = record after_failure.conn {
    packages = after_failure.conn.packages ++ create_package list_streambuf little (9 ∷ []) ∷ [];
  };
  submitted = after_failure.submitted ++ create_package list_streambuf little (9 ∷ []) ∷ [];
}

third_dispatched : Reach list_streambuf little silent after_failure after_third
unfolding dispatch_slot connection wait_package send_package
third_dispatched = next here (dispatches (9 ∷ []) _ refl)

Reach_failed_example :
    (writes after_third.conn.trace ≡ writes after_failure.conn.trace)
    × (after_third.conn.socket_locked ≡ true)
Reach_failed_example =
    Reach_failed list_streambuf little silent silent-IsQuiet after_failure after_third
      (Reach-IsSerial list_streambuf little silent silent-IsQuiet after_failure one_failed) refl
      third_dispatched

abbrev after_all : Net list_streambuf ℕ
after_all = record after_two { conn = write_next (write_next after_two.conn); completed = 2 }

abbrev two_messages : List Message
two_messages = greeting ∷ reply ∷ []

-- A connection on which callback 9 waits for the uid 3, and the bytes of two messages.
abbrev waiting : Inbox list_streambuf ℕ
waiting = record {
  conn = record connection { callbacks = (3, 9) ∷ [] };
  served = 0;
  inbound = frames little two_messages ++ 1 ∷ [];
}

abbrev fresh : Conn
fresh = record connection { callbacks = (3, 9) ∷ [] }

uid_after_ne_example :
    uid_after list_streambuf little 0 fresh ≢ uid_after list_streambuf little 2 fresh
unfolding connection wait_package
uid_after_ne_example =
    uid_after_ne list_streambuf little 0 2 fresh (omega arith) (omega arith) (omega arith)

abbrev unsolicited : Message
unsolicited = record {
  command = 5;
  uid = (create_stream list_streambuf little fresh 5).0.uid;
  payload = 1 ∷ [];
}
