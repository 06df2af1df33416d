-- ===== src/Demo/Client.antt =====
-- The example client (example/client/main.cpp): its slot for messages, its callback for answers,
-- and the loop that reads commands from the console.
use lnetlib.Base.{ℕ, Bool, false, List, [], ◌∷◌, ◌++◌, Option, some, ◌>>=◌, ◌==◌, if◌then◌else◌}
use lnetlib.Bytes.{Endian}
use lnetlib.Streambuf.{Streambuf}
use lnetlib.Encryption.Files.{Text}
use lnetlib.Stream.OStream.{eight, Chunk}
use lnetlib.Stream.IStream.{IStream, read_string, read_data_chunk}
use lnetlib.Stream.RoundTrip.{Memory}
use lnetlib.Connection.State.{Delivery, Connection, Program}
use lnetlib.Connection.Sending.{dispatch_slot, create_stream, create_stream_for}
use lnetlib.Demo.Commands.{Command, hello, goodbye, quit, send_file, message, number, command_of}
use lnetlib.Demo.Input.{next_char}
use lnetlib.Demo.Server.{send_out}

-- The response callback of the command 'm', the only one of the program.
pub data Callback : Type 0 where
  show_answer : Callback

-- What the slots write to the console.
pub data Line : Type 0 where
  says_hello : Text → Line
  says_goodbye : Line
  received_file : Text → Line
  callback_message : Text → Line

-- The console's output, and the files that have been written, both oldest first.
pub record Terminal : Type 0 where
  pub output : List Line
  pub files : List (Text × List ℕ)

abbrev pub print : Line → Terminal → Terminal
print line t = record t { output = t.output ++ line ∷ [] }

-- `fstream.write`, on a file that could be opened or not.
unfoldable pub write_file : Bool → Text → Chunk → Terminal → Terminal
write_file opened filename bytes t =
    if opened then record t { files = t.files ++ (filename, bytes.content) ∷ [] } else t

module _ (B : Streambuf) (e : Endian) {W : Type 0} where
  -- The lambda `callback`; `m` is what its memory holds where `read_string` runs.
  unfoldable pub on_answer : Memory → IStream B W → Terminal → Option Terminal
  on_answer m stream t =
      read_string B e eight stream m.junk m.stack >>= λ r. some (print (callback_message r.0) t)

  unfoldable pub on_hello : Memory → IStream B W → Terminal → Option Terminal
  on_hello m stream t =
      read_string B e eight stream m.junk m.stack >>= λ r. some (print (says_hello r.0) t)

  -- The case SendFile; `m'` is the memory of the second read, and `writable` says whether a file
  -- can be opened for writing.
  unfoldable pub on_file :
      (Text → Bool) → Memory → Memory → IStream B W → Terminal → Option Terminal
  on_file writable m m' stream t = do
    (filename, stream1) ← read_string B e eight stream m.junk m.stack
    (bytes, stream2) ← read_data_chunk B e eight 1 stream1 m'.junk
    some (print (received_file filename) (write_file (writable filename) filename bytes t))

  -- The slot of `received`.
  unfoldable pub on_received :
      (Text → Bool) → Memory → Memory → IStream B W → Terminal → Option Terminal
  on_received writable m m' stream t = show (command_of stream.command)
    where
      show : Option Command → Option Terminal
      show (some hello) = on_hello m stream t
      show (some goodbye) = some (print says_goodbye t)
      show (some send_file) = on_file writable m m' stream t
      show _ = some t

module _ (B : Streambuf) (e : Endian) where
  -- The stream that the slot or the callback is given.
  abbrev pub stream_of : Delivery B → IStream B (Connection B Callback)
  stream_of d = record {
    buffer = d.body;
    fail = false;
    uid = d.uid;
    command = d.command;
    response_dispatch = dispatch_slot B e ∷ [];
  }

  -- The connection's program: the slots write to the terminal and leave the connection alone.
  abbrev pub watching : Program B Callback → Program B Callback
  watching p = record p { on_received = λ s c. some c; on_callback = λ cb s c. some c }

  -- The case 'q' of the loop.
  unfoldable pub ask_quit : Connection B Callback → Option (Connection B Callback)
  ask_quit c = let (stream, c') = create_stream B e c (number quit) in send_out B e stream c'

  -- The case 'm'.
  unfoldable pub ask_message : Connection B Callback → Option (Connection B Callback)
  ask_message c =
      let (stream, c') = create_stream_for B e c (number message) show_answer in
      send_out B e stream c'

-- What the loop of `main` works on. The connection is null until the client is connected.
pub record Desk (B : Streambuf) : Type 0 where
  pub input : List ℕ
  pub cmd : ℕ
  pub connection : Option (Connection B Callback)

module _ (B : Streambuf) (e : Endian) where
  -- `client.conn()->`; `none`: a null pointer is followed.
  unfoldable pub on_connection :
      (Connection B Callback → Option (Connection B Callback)) → Desk B → Option (Desk B)
  on_connection ask d = do c ← d.connection; c' ← ask c; some (record d { connection = some c' })

  unfoldable pub run_command : ℕ → Desk B → Option (Desk B)
  run_command cmd d =
      if cmd == b'q'
      then on_connection (ask_quit B e) d
      else if cmd == b'm'
      then on_connection (ask_message B e) d
      else some d

  -- One turn of the loop, which no command ends.
  unfoldable pub turn : Desk B → Option (Desk B)
  turn d =
      let (cmd, input) = next_char d.cmd d.input in
      run_command cmd (record d { cmd = cmd; input = input })
