-- ===== src/Demo/Transfer.antt =====
-- The commands 'f' and 'h' of the example server (example/server/main.cpp), with the example client
-- (example/client/main.cpp) at the other end.
use lnetlib.Base.{
  ℕ, ◌+◌, ◌^◌, ◌<◌, ◌≡◌, ◌≢◌, refl, ap, ◌∙◌, Bool, false, List, [], ◌∷◌, ◌++◌, append_assoc, none,
  some, ◌>>=◌, arith, length, length-append, All, Option-cases, inl, inr,
}
use lnetlib.Bytes.{Endian, store, length-store}
use lnetlib.Streambuf.{Streambuf}
use lnetlib.Encryption.Files.{Text}
use lnetlib.Stream.OStream.{eight, Chunk, write_string, write_data_chunk, destroy}
use lnetlib.Stream.Reading.{read_string-Left, read_data_chunk-Left}
use lnetlib.Stream.RoundTrip.{Field, Memory, Terminated, encode_all, write_field, write_fields}
use lnetlib.Connection.State.{Delivery, received, Connection, Program}
use lnetlib.Connection.Sending.{create_stream}
use lnetlib.Connection.Receiving.{find}
use lnetlib.Connection.Reads.{deliveries, Inbox, serve_times}
use lnetlib.Connection.Framing.{Waiting}
use lnetlib.Connection.Arrival.{arrive}
use lnetlib.Connection.Posting.{new_bytes, posts}
use lnetlib.Demo.Commands.{
  hello, send_file, number, command_of, command_of-number, greeting, greeting-All,
}
use lnetlib.Demo.Server.{say_hello, give_file}
use lnetlib.Demo.Client.{
  Callback, says_hello, received_file, Terminal, print, write_file, on_file, on_hello, on_received,
  stream_of, watching,
}
use lnetlib.Demo.Talk.{watching-IsCalm}

-- What the server writes for a file, and what it writes for its greeting.
abbrev pub file_fields : Text → Chunk → List Field
file_fields filename bytes = Field.text eight filename ∷ Field.vector eight 1 bytes ∷ []

abbrev pub hello_fields : List Field
hello_fields = Field.text eight greeting ∷ []

-- A file's name has no zero byte, its bytes are as many as its size says, and both have a size
-- below that of any object.
abbrev pub IsFile : Text → Chunk → Type 0
IsFile filename bytes =
    All (λ b. b ≢ 0) filename
    × (length bytes.content ≡ bytes.size)
    × (length filename + bytes.size + 32 < 2 ^ 63)

module _ (B : Streambuf) (e : Endian) {K : Type 0} where
  pub give_file-write_fields :
      (filename : Text) (bytes : Chunk) (c : Connection B K)
      → give_file B e filename bytes c ≡ (
          let (s, c1) = create_stream B e c (number send_file) in
          write_fields B e s (file_fields filename bytes) >>= λ t. destroy B e t c1)
  unfolding give_file write_fields write_field
  give_file-write_fields filename bytes c =
      let s = (create_stream B e c (number send_file)).0 in
      elim (Option-cases (write_string B e eight s filename)) [
        | inl e0 ↦ rw e0
        | inr (s1, e1) ↦ elim (Option-cases (write_data_chunk B e eight 1 s1 bytes)) [
          | inl e2 ↦ rw (e1, e2)
          | inr (s2, e2) ↦ rw (e1, e2)
        ]
      ]

  pub say_hello-write_fields :
      (c : Connection B K)
      → say_hello B e c ≡ (
          let (s, c1) = create_stream B e c (number hello) in
          write_fields B e s hello_fields >>= λ t. destroy B e t c1)
  unfolding say_hello write_fields write_field
  say_hello-write_fields c =
      elim (Option-cases (write_string B e eight (create_stream B e c (number hello)).0 greeting)) [
        | inl e0 ↦ rw e0
        | inr (s1, e1) ↦ rw e1
      ]

pub length-file_fields :
    (e : Endian) (filename : Text) (bytes : Chunk)
    → length (encode_all e (file_fields filename bytes))
      ≡ length filename + length bytes.content + 16
length-file_fields e filename bytes =
    let name : List ℕ = store e 8 (length filename) ++ filename in
    let chunk : List ℕ = store e 8 bytes.size ++ bytes.content in
    omega (
      arith,
      length-append name (chunk ++ []),
      length-append chunk [],
      length-append (store e 8 (length filename)) filename,
      length-append (store e 8 bytes.size) bytes.content,
      length-store e 8 (length filename),
      length-store e 8 bytes.size,
    )

module _ (B : Streambuf) (e : Endian) where
  file_shows :
      (writable : Text → Bool) (m m' : Memory) (filename : Text) (bytes : Chunk) (d : Delivery B)
      (terminal : Terminal)
      → IsFile filename bytes
      → Terminated (Field.text eight filename) m
      → d.command ≡ number send_file
      → B.bytes d.body ≡ encode_all e (file_fields filename bytes)
      → on_received B e writable m m' (stream_of B e d) terminal
        ≡ some (
            print (received_file filename) (write_file (writable filename) filename bytes terminal))
  unfolding on_received on_file
  file_shows writable m m' filename bytes d terminal (name, whole, fits) (more, ends) command body =
      let known : command_of d.command ≡ some send_file =
        ap command_of command ∙ command_of-number send_file in
      let rest : List ℕ = (store e 8 bytes.size ++ bytes.content) ++ [] in
      let (s1, read1, left1) =
        read_string-Left B e eight (stream_of B e d) m.junk filename more rest m.stack name
          (omega arith) ends
          (refl, body ∙ append_assoc (store e 8 (length filename)) filename rest) in
      let (s2, read2, left2) =
        read_data_chunk-Left B e eight 1 s1 m'.junk bytes [] (omega arith) (omega arith)
          (omega (arith, whole))
          (left1.0, left1.1 ∙ append_assoc (store e 8 bytes.size) bytes.content []) in
      rw (known, read1, read2) refl

  hello_shows :
      (writable : Text → Bool) (m m' : Memory) (d : Delivery B) (terminal : Terminal)
      → Terminated (Field.text eight greeting) m
      → d.command ≡ number hello
      → B.bytes d.body ≡ encode_all e hello_fields
      → on_received B e writable m m' (stream_of B e d) terminal
        ≡ some (print (says_hello greeting) terminal)
  unfolding on_received on_hello
  hello_shows writable m m' d terminal (more, ends) command body =
      let known : command_of d.command ≡ some hello =
        ap command_of command ∙ command_of-number hello in
      let (s', read, left) =
        read_string-Left B e eight (stream_of B e d) m.junk greeting more [] m.stack greeting-All
          (omega arith) ends
          (refl, body ∙ append_assoc (store e 8 (length greeting)) greeting []) in
      rw (known, read) refl

module _ (B : Streambuf) (e : Endian) {K : Type 0} (p : Program B Callback) where
  -- The command 'f' for one connection that is free, with the example client at the other end:
  -- nothing fails on the way, and the client emits `received`, once and nothing else, whose slot
  -- writes to a file of the same name, if that can be opened, the same bytes, and tells the console
  -- the name. The client must wait for a message with no callback for the uid, the name has no zero
  -- byte and with the bytes a size below 2 ^ 63, and behind the slot's array its memory has a zero
  -- byte somewhere.
  pub give_file-on_received :
      (j k : ℕ) (writable : Text → Bool) (m m' : Memory) (terminal : Terminal) (filename : Text)
      (bytes : Chunk) (c : Connection B K) (y : Inbox B Callback)
      → c.socket_locked ≡ false
      → Waiting y []
      → find c.uid_counter y.conn.callbacks ≡ none
      → c.uid_counter < 2 ^ 64
      → IsFile filename bytes
      → Terminated (Field.text eight filename) m
      → (c' : Connection B K) × (y' : Inbox B Callback) × (d : Delivery B) × (give_file B e filename
            bytes c
          ≡ some c')
        × (serve_times B e (watching B e p) j k 2 (arrive (new_bytes c c') y) ≡ some y')
        × (deliveries y'.conn.trace ≡ deliveries y.conn.trace ++ received d ∷ [])
        × (on_received B e writable m m' (stream_of B e d) terminal
            ≡ some (
                print
                  (received_file filename)
                  (write_file (writable filename) filename bytes terminal)))
  give_file-on_received j k writable m m' terminal filename bytes c y free w missing small_uid
        (name, whole, fits) ends =
      let fs : List Field = file_fields filename bytes in
      let (t, c', y', d, wrote, gone, heard, calls, (command, uid, body)) =
        posts B e (watching B e p) (watching-IsCalm B e p) j k (number send_file) fs c y free w
          missing (omega arith) small_uid
          ((name, omega arith), ((omega arith, omega arith, omega arith), tt))
          (omega (arith, length-file_fields e filename bytes, whole)) in
      (
        c',
        y',
        d,
        give_file-write_fields B e filename bytes c ∙ rw wrote gone,
        heard,
        calls,
        file_shows B e writable m m' filename bytes d terminal (name, whole, fits) ends command
            body,
      )

  -- The command 'h' likewise: the client tells the console the server's greeting.
  pub say_hello-on_received :
      (j k : ℕ) (writable : Text → Bool) (m m' : Memory) (terminal : Terminal) (c : Connection B K)
      (y : Inbox B Callback)
      → c.socket_locked ≡ false
      → Waiting y []
      → find c.uid_counter y.conn.callbacks ≡ none
      → c.uid_counter < 2 ^ 64
      → Terminated (Field.text eight greeting) m
      → (c' : Connection B K) × (y' : Inbox B Callback) × (d : Delivery B) × (say_hello B e c
          ≡ some c')
        × (serve_times B e (watching B e p) j k 2 (arrive (new_bytes c c') y) ≡ some y')
        × (deliveries y'.conn.trace ≡ deliveries y.conn.trace ++ received d ∷ [])
        × (on_received B e writable m m' (stream_of B e d) terminal
            ≡ some (print (says_hello greeting) terminal))
  say_hello-on_received j k writable m m' terminal c y free w missing small_uid ends =
      let (t, c', y', d, wrote, gone, heard, calls, (command, uid, body)) =
        posts B e (watching B e p) (watching-IsCalm B e p) j k (number hello) hello_fields c y free
          w missing (omega arith) small_uid ((greeting-All, omega arith), tt)
          (omega (
            arith,
            length-append (store e 8 (length greeting) ++ greeting) [],
            length-append (store e 8 (length greeting)) greeting,
            length-store e 8 (length greeting),
          )) in
      (
        c',
        y',
        d,
        say_hello-write_fields B e c ∙ rw wrote gone,
        heard,
        calls,
        hello_shows B e writable m m' d terminal ends command body,
      )
