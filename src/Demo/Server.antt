-- ===== src/Demo/Server.antt =====
-- The example server (example/server/main.cpp): its slot for messages, which closes a connection
-- whose socket shuts down without an error, and the loop that reads commands from the console.
use lnetlib.Base.{
  ℕ, ◌^◌, Bool, false, List, [], ◌∷◌, ◌++◌, map, Option, none, some, ◌>>=◌, ◌==◌, ltb, replicate,
  if◌then◌else◌,
}
use lnetlib.Bytes.{Endian}
use lnetlib.Streambuf.{Streambuf}
use lnetlib.Encryption.Files.{Text, FileView, absent, present, position, filled}
use lnetlib.Stream.OStream.{OStream, eight, Chunk, write_string, write_data_chunk, send, destroy}
use lnetlib.Stream.IStream.{IStream, create_response}
use lnetlib.Connection.State.{Connection, Program, close}
use lnetlib.Connection.Sending.{create_stream}
use lnetlib.Demo.Commands.{
  Command, hello, goodbye, quit, send_file, message, number, command_of, ready, greeting,
}
use lnetlib.Demo.Input.{next_char, next_word}

module _ (B : Streambuf) (e : Endian) {K : Type 0} where
  -- `send`, and the end of the stream's scope.
  abbrev pub send_out : OStream B (Connection B K) → Connection B K → Option (Connection B K)
  send_out s c = send B e s c >>= λ r. destroy B e r.0 r.1

  -- The case Message of the slot of `received`.
  unfoldable pub on_message : IStream B (Connection B K) → Connection B K → Option (Connection B K)
  on_message stream c = do
    response ← write_string B e eight (create_response B e stream) ready
    send_out response c

  -- The case Quit.
  unfoldable pub on_quit : Program B K → Connection B K → Option (Connection B K)
  on_quit p c = do
    let (stream, c1) = create_stream B e c (number goodbye)
    (stream', c2) ← send B e stream c1
    c3 ← close p c2 none
    destroy B e stream' c3

  -- The slot of `received`; `p` has what the library's slot for `closed` does.
  unfoldable pub on_received :
      Program B K → IStream B (Connection B K) → Connection B K → Option (Connection B K)
  on_received p stream c = answer (command_of stream.command)
    where
      answer : Option Command → Option (Connection B K)
      answer (some message) = on_message stream c
      answer (some quit) = on_quit p c
      answer _ = some c

  -- The connection's program, as the example makes it.
  abbrev pub serving : Program B K → Program B K
  serving p = record p { on_received = on_received p }

  -- The command 'h', for one connection.
  unfoldable pub say_hello : Connection B K → Option (Connection B K)
  say_hello c = do
    let (stream, c') = create_stream B e c (number hello)
    stream' ← write_string B e eight stream greeting
    destroy B e stream' c'

  -- The command 'f', for one connection.
  unfoldable pub give_file : Text → Chunk → Connection B K → Option (Connection B K)
  give_file filename bytes c = do
    let (stream, c') = create_stream B e c (number send_file)
    stream1 ← write_string B e eight stream filename
    stream2 ← write_data_chunk B e eight 1 stream1 bytes
    destroy B e stream2 c'

-- `for (auto conn : server.connections())`, with a body that may change each connection.
unfoldable pub for_each : {C : Type 0} → (C → Option C) → List C → Option (List C)
for_each body [] = some []
for_each body (c ∷ cs) = do c' ← body c; cs' ← for_each body cs; some (c' ∷ cs')

-- The bytes of a file that is open: `tellg` at the end, `resize`, and one `read` from the start.
-- `none`: the vector would be larger than any object, and an exception leaves `main`.
unfoldable pub file_bytes : Option ℕ → List ℕ → Option Chunk
file_bytes end content =
    let size = position end in
    if ltb size (2 ^ 63)
    then some (record { size = size; content = filled (replicate size 0) content size })
    else none

-- What the loop of `main` writes to the console.
pub data Line : Type 0 where
  prompt not_found sended : Line

-- What the loop of `main` works on: the rest of the console's input, its two variables, the
-- connections of the server, and its output.
pub record Desk (B : Streambuf) (K : Type 0) : Type 0 where
  pub input : List ℕ
  pub cmd : ℕ
  pub loop : Bool
  pub connections : List (Connection B K)
  pub output : List Line

module _ (B : Streambuf) (e : Endian) {K : Type 0} where
  unfoldable pub send_bytes : Text → Desk B K → Chunk → Option (Desk B K)
  send_bytes filename d bytes = do
    cs ← for_each (give_file B e filename bytes) d.connections
    some (record d { connections = cs; output = d.output ++ map (λ c. sended) cs })

  unfoldable pub send_view : Text → Desk B K → FileView → Option (Desk B K)
  send_view filename d absent = some (record d { output = d.output ++ not_found ∷ [] })
  send_view filename d (present end content) = do
    bytes ← file_bytes end content
    send_bytes filename d bytes

  -- The case 'f'; `view` says what opening a file gives.
  unfoldable pub file_command : (Text → FileView) → Desk B K → Option (Desk B K)
  file_command view d =
      let (filename, input) = next_word d.input in
      send_view filename (record d { input = input; output = d.output ++ prompt ∷ [] })
        (view filename)

  unfoldable pub hello_command : Desk B K → Option (Desk B K)
  hello_command d = do
    cs ← for_each (say_hello B e) d.connections
    some (record d { connections = cs })

  unfoldable pub run_command : (Text → FileView) → ℕ → Desk B K → Option (Desk B K)
  run_command view cmd d =
      if cmd == b'h'
      then hello_command d
      else if cmd == b'f'
      then file_command view d
      else if cmd == b'q'
      then some (record d { loop = false })
      else some d

  -- One turn of the loop.
  unfoldable pub turn : (Text → FileView) → Desk B K → Option (Desk B K)
  turn view d =
      let (cmd, input) = next_char d.cmd d.input in
      run_command view cmd (record d { cmd = cmd; input = input })
