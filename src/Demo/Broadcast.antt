-- ===== src/Demo/Broadcast.antt =====
-- The command 'f' of the example server (example/server/main.cpp), over all its connections.
use lnetlib.Base.{
  ℕ, ◌^◌, ◌<◌, ◌≡◌, refl, ◌∙◌, false, List, [], ◌∷◌, ◌++◌, map, some, arith, length, replicate,
  lt→ltb, All,
}
use lnetlib.Bytes.{Endian}
use lnetlib.Streambuf.{Streambuf}
use lnetlib.Encryption.Files.{Text, FileView, present}
use lnetlib.Encryption.Laws.{filled_whole}
use lnetlib.Stream.OStream.{Chunk}
use lnetlib.Stream.RoundTrip.{encode_all}
use lnetlib.Connection.State.{Connection}
use lnetlib.Connection.Sending.{create_package, send_package, create_stream}
use lnetlib.Connection.WriteQueue.{send_package-writes}
use lnetlib.Connection.Frames.{Message, frame}
use lnetlib.Connection.Posting.{new_bytes, new_bytes-frame, sends}
use lnetlib.Demo.Commands.{send_file, number}
use lnetlib.Demo.Input.{next_char, next_word}
use lnetlib.Demo.Server.{
  give_file, for_each, file_bytes, prompt, sended, Desk, send_bytes, send_view, file_command,
  run_command, turn,
}
use lnetlib.Demo.Transfer.{file_fields, IsFile, give_file-write_fields, length-file_fields}

-- A connection that is free, and whose counter is a uint64_t.
abbrev pub IsFree : {B : Streambuf} {K : Type 0} → Connection B K → Type 0
IsFree c = (c.socket_locked ≡ false) × (c.uid_counter < 2 ^ 64)

file_bytes-whole :
    (content : List ℕ)
    → length content < 2 ^ 63
    → file_bytes (some (length content)) content
      ≡ some (record { size = length content; content = content })
unfolding file_bytes
file_bytes-whole content small =
    rw
      (
        lt→ltb (length content) (2 ^ 63) small,
        filled_whole (replicate (length content) 0) content (length content) refl,
      )
      refl

module _ (B : Streambuf) (e : Endian) {K : Type 0} where
  -- The message with a file.
  abbrev pub file_message : Text → Chunk → Connection B K → Message
  file_message filename bytes c = record {
    command = number send_file;
    uid = c.uid_counter;
    payload = encode_all e (file_fields filename bytes);
  }

  give_file-frame :
      (filename : Text) (bytes : Chunk) (c : Connection B K)
      → IsFile filename bytes
      → IsFree c
      → (c' : Connection B K) × (give_file B e filename bytes c ≡ some c')
        × (new_bytes c c' ≡ frame e (file_message filename bytes c))
  unfolding create_stream
  give_file-frame filename bytes c (name, whole, fits) (free, small) =
      let c1 : Connection B K = (create_stream B e c (number send_file)).1 in
      let (t, b, wrote, destroyed, holds) =
        sends B e c c1 (number send_file) (file_fields filename bytes) free (omega arith)
          ((name, omega arith), ((omega arith, omega arith, omega arith), tt)) in
      let c2 : Connection B K = send_package (create_package B e b) c1 in
      (
        c2,
        give_file-write_fields B e filename bytes c ∙ rw wrote destroyed,
        new_bytes-frame B e c c2 b (file_message filename bytes c)
            (send_package-writes (create_package B e b) c1)
            (omega arith, small, omega (arith, length-file_fields e filename bytes, whole)) holds,
      )

  -- Each connection has written the file's message, and nothing else.
  abbrev pub AllSent : Text → Chunk → List (Connection B K) → List (Connection B K) → Type 0
  AllSent filename bytes [] [] = Unit {0}
  AllSent filename bytes (c ∷ cs) (c' ∷ cs') =
      (new_bytes c c' ≡ frame e (file_message filename bytes c)) × AllSent filename bytes cs cs'
  AllSent filename bytes _ _ = ⊥

  for_each-give_file :
      (filename : Text) (bytes : Chunk) (cs : List (Connection B K))
      → IsFile filename bytes
      → All IsFree cs
      → (cs' : List (Connection B K)) × (for_each (give_file B e filename bytes) cs ≡ some cs')
        × AllSent filename bytes cs cs'
  unfolding for_each
  for_each-give_file filename bytes [] v free = ([], refl, tt)
  for_each-give_file filename bytes (c ∷ cs) v free =
      let (c', gave, sent) = give_file-frame filename bytes c v free.0 in
      let (cs', rest, sent') = for_each-give_file filename bytes cs v free.1 in
      (c' ∷ cs', rw (gave, rest) refl, (sent, sent'))

  -- The user asks for a file that is there, and the server's connections are free: the turn
  -- returns, every connection has written one message with the file's name and all its bytes, and
  -- nothing else, and the console has told so once for each. The file's name has no zero byte, and
  -- with the bytes a size below 2 ^ 63.
  pub turn-AllSent :
      (view : Text → FileView) (d : Desk B K) (rest left : List ℕ) (filename : Text)
      (content : List ℕ)
      → next_char d.cmd d.input ≡ (b'f', rest)
      → next_word rest ≡ (filename, left)
      → view filename ≡ present (some (length content)) content
      → IsFile filename (record { size = length content; content = content })
      → All IsFree d.connections
      → (cs : List (Connection B K)) × (turn B e view d
          ≡ some (record d {
            input = left;
            cmd = b'f';
            connections = cs;
            output = (d.output ++ prompt ∷ []) ++ map (λ c. sended) cs;
          }))
        × AllSent filename (record { size = length content; content = content }) d.connections cs
  unfolding turn run_command file_command send_view send_bytes
  turn-AllSent view d rest left filename content asks named there v free =
      let bytes : Chunk = record { size = length content; content = content } in
      let (cs, gave, sent) = for_each-give_file filename bytes d.connections v free in
      (cs, rw (asks, named, there, file_bytes-whole content (omega (arith, v)), gave) refl, sent)
