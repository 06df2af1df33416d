-- ===== src/Examples/Demos.antt =====
-- The theorems on the example programs at concrete inputs.
use lnetlib.Base.{map, ℕ, ◌≡◌, refl, Bool, true, false, List, [], ◌∷◌, ◌++◌, some, arith}
use lnetlib.Bytes.{little}
use lnetlib.Streambuf.{list_streambuf}
use lnetlib.Encryption.Files.{Text, FileView, absent, present}
use lnetlib.Stream.OStream.{Chunk}
use lnetlib.Stream.IStream.{IStream, c_string}
use lnetlib.Stream.RoundTrip.{Memory}
use lnetlib.Connection.State.{Delivery, received, called, Connection, connection, wait_package}
use lnetlib.Connection.Receiving.{find}
use lnetlib.Connection.Reads.{deliveries, Inbox, serve_times}
use lnetlib.Connection.Arrival.{arrive}
use lnetlib.Connection.Posting.{new_bytes}
use lnetlib.Demo.Commands.{ready}
use lnetlib.Demo.Input.{next_char, next_word, skip_space}
use lnetlib.Demo.Broadcast.{AllSent, turn-AllSent}
use lnetlib.Demo.Server.{prompt, sended, turn, Desk, serving, give_file}
use lnetlib.Demo.Client.{
  Callback, show_answer, callback_message, received_file, Terminal, print, write_file, on_answer,
  stream_of, watching, ask_message,
}
use lnetlib.Demo.Client
use lnetlib.Demo.Talk.{ask_message-shows}
use lnetlib.Demo.Transfer.{give_file-on_received}
use lnetlib.Examples.Programs.{silent}

abbrev client_side : Inbox list_streambuf Callback
client_side = record { conn = connection; served = 0; inbound = [] }

abbrev server_side : Inbox list_streambuf ℕ
server_side = record { conn = connection; served = 0; inbound = [] }

abbrev blank : Terminal
blank = record { output = []; files = [] }

-- A memory with a zero behind the text.
abbrev memory : List ℕ → Memory
memory text = record { junk = 0; stack = text ++ 0 ∷ [] }

ask_message-shows_example :
    (c : Connection list_streambuf Callback) × (y' : Inbox list_streambuf ℕ) × (x' : Inbox
      list_streambuf Callback)
    × (d : Delivery list_streambuf) × (ask_message list_streambuf little client_side.conn ≡ some c)
    × (serve_times list_streambuf little
          (serving list_streambuf little silent)
          0
          0
          2
          (arrive (new_bytes client_side.conn c) server_side)
        ≡ some y')
    × (serve_times list_streambuf little
          (watching list_streambuf little silent)
          0
          0
          2
          (arrive (new_bytes server_side.conn y'.conn) (record client_side { conn = c }))
        ≡ some x')
    × (deliveries x'.conn.trace ≡ deliveries client_side.conn.trace ++ called show_answer d ∷ [])
    × (on_answer list_streambuf little (memory ready) (stream_of list_streambuf little d) blank
        ≡ some (print (callback_message ready) blank))
unfolding connection wait_package find c_string
ask_message-shows_example =
    ask_message-shows list_streambuf little silent silent 0 0 (memory ready) blank client_side
      server_side ([], refl, refl, refl) ([], refl, refl, refl) refl refl refl (omega arith)
      ([], refl)

abbrev filename : Text
filename = b'a' ∷ []

abbrev chunk : Chunk
chunk = record { size = 3; content = 1 ∷ 0 ∷ 2 ∷ [] }

abbrev any_file : Text → Bool
any_file name = true

give_file-on_received_example :
    (c' : Connection list_streambuf ℕ) × (y' : Inbox list_streambuf Callback) × (d : Delivery
      list_streambuf)
    × (give_file list_streambuf little filename chunk server_side.conn ≡ some c')
    × (serve_times list_streambuf little
          (watching list_streambuf little silent)
          0
          0
          2
          (arrive (new_bytes server_side.conn c') client_side)
        ≡ some y')
    × (deliveries y'.conn.trace ≡ deliveries client_side.conn.trace ++ received d ∷ [])
    × (Client.on_received list_streambuf little any_file
          (memory filename)
          (memory [])
          (stream_of list_streambuf little d)
          blank
        ≡ some
            (print (received_file filename) (write_file (any_file filename) filename chunk blank)))
unfolding connection wait_package find c_string
give_file-on_received_example =
    give_file-on_received list_streambuf little silent 0 0 any_file (memory filename) (memory [])
      blank filename chunk server_side.conn client_side refl ([], refl, refl, refl) refl
      (omega arith) ((omega arith, tt), refl, omega arith) ([], refl)

abbrev request : IStream list_streambuf (Connection list_streambuf ℕ)
request = record { buffer = []; fail = false; uid = 0; command = 2; response_dispatch = [] }

abbrev no_files : Text → FileView
no_files name = absent

abbrev desk : Desk list_streambuf ℕ
desk = record {
  input = [];
  cmd = b'h';
  loop = true;
  connections = server_side.conn ∷ [];
  output = [];
}

-- The user types "f a" and the file `a` has three bytes.
abbrev asking : Desk list_streambuf ℕ
asking = record desk { input = b'f' ∷ b' ' ∷ b'a' ∷ b'\n' ∷ [] }

abbrev one_file : Text → FileView
one_file name = present (some 3) (1 ∷ 0 ∷ 2 ∷ [])

turn-AllSent_example :
    (cs : List (Connection list_streambuf ℕ)) × (turn list_streambuf little one_file asking
      ≡ some (record asking {
        input = b'\n' ∷ [];
        cmd = b'f';
        connections = cs;
        output = (asking.output ++ prompt ∷ []) ++ map (λ c. sended) cs;
      }))
    × AllSent list_streambuf little filename chunk asking.connections cs
unfolding connection wait_package next_char next_word skip_space
turn-AllSent_example =
    turn-AllSent list_streambuf little one_file asking (b' ' ∷ b'a' ∷ b'\n' ∷ []) (b'\n' ∷ [])
      filename (1 ∷ 0 ∷ 2 ∷ []) refl refl refl ((omega arith, tt), refl, omega arith)
      ((refl, omega arith), tt)
