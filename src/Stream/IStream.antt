-- ===== src/Stream/IStream.antt =====
-- istream.h and istream.cpp: a stream over a received buffer, which gives the command, the uid and
-- then the typed values back, and can open a response.
use lnetlib.Base.{
  ℕ, zero, suc, ◌*◌, ◌^◌, Bool, false, List, [], ◌∷◌, ◌++◌, Option, none, some, ◌>>=◌, length, take,
  drop, replicate, ltb, if◌then◌else◌,
}
use lnetlib.Bytes.{Endian, store, load, ℤ, of_pattern}
use lnetlib.Streambuf.{Streambuf}
use lnetlib.Signal.Emit.{MoveSlot, emit_moved}
use lnetlib.Stream.OStream.{OStream, ostream, Width, size_of, span, Chunk}

-- `fail` is failbit: once a read comes short, every later read does nothing.
pub record IStream (B : Streambuf) (W : Type 0) : Type 0 where
  pub buffer : B.Buffer
  pub fail : Bool
  pub uid : ℕ
  pub command : ℕ
  pub response_dispatch : List (MoveSlot B.Buffer W)

-- The text at a `const char*` ends before the first zero byte. `none`: no zero byte in the memory.
unfoldable pub c_string : List ℕ → Option (List ℕ)
c_string [] = none
c_string (zero ∷ bs) = some []
c_string (suc b ∷ bs) = c_string bs >>= λ rest. some (suc b ∷ rest)

module _ (B : Streambuf) (e : Endian) {W : Type 0} where
  open B use {Buffer, sgetn, consume}

  -- `read(memory, n)`: what the memory holds afterwards, and the stream.
  unfoldable pub read : IStream B W → ℕ → List ℕ → List ℕ × IStream B W
  read s n memory =
      let got = sgetn n s.buffer in
      let s' : IStream B W = record s { buffer = consume n s.buffer; fail = ltb (length got) n } in
      if s.fail then (memory, s) else (got ++ drop (length got) memory, s')

  -- `T data; read(&data, sizeof(T)); return data;` where `junk` is what `data` held.
  unfoldable pub read_basic : ℕ → IStream B W → ℕ → ℕ × IStream B W
  read_basic w s junk = let (memory, s') = read s w (store e w junk) in (load e memory, s')

  -- The constructor; `command` and `uid` are what the members held before.
  unfoldable pub istream : Buffer → ℕ → ℕ → IStream B W
  istream buffer command uid =
      let s : IStream B W = record {
        buffer = buffer;
        fail = false;
        uid = uid;
        command = command;
        response_dispatch = [];
      } in
      let (command', s') = read_basic 8 s command in
      let (uid', s'') = read_basic 8 s' uid in record s'' { command = command'; uid = uid' }

  -- read_uint8 to read_uint64; read_float32 and read_float64 to the bit pattern.
  unfoldable pub read_uint : Width → IStream B W → ℕ → ℕ × IStream B W
  read_uint w s junk = read_basic (size_of w) s junk

  -- read_int8 to read_int64.
  unfoldable pub read_int : Width → IStream B W → ℕ → ℤ × IStream B W
  read_int w s junk =
      let (pattern', s') = read_basic (size_of w) s junk in (of_pattern (span w) pattern', s')

  -- `stack` is the memory from the array `data` on, the array and what follows it. The text is
  -- `std::string(data, 0, size)`: the C string at `data`, cut to `size` characters.
  unfoldable pub read_string : Width → IStream B W → ℕ → List ℕ → Option (List ℕ × IStream B W)
  read_string w s junk stack =
      let (size, s') = read_basic (size_of w) s junk in
      let (memory, s'') = read s' size stack in
      do text ← c_string memory; some (take size text, s'')

  -- The overload that allocates `new char[size]` holding `heap`; T is char.
  unfoldable pub read_data_chunk_to : Width → IStream B W → ℕ → List ℕ → Chunk × IStream B W
  read_data_chunk_to w s junk heap =
      let (size, s') = read_basic (size_of w) s junk in
      let (memory, s'') = read s' size heap in (record { size = size; content = memory }, s'')

  -- The overload that returns a vector, at sizeof(T) = `t`. `none`: the vector would be larger than
  -- any object, and its constructor throws.
  unfoldable pub read_data_chunk : Width → ℕ → IStream B W → ℕ → Option (Chunk × IStream B W)
  read_data_chunk w t s junk =
      let (size, s') = read_basic (size_of w) s junk in
      let (memory, s'') = read s' (size * t) (replicate (size * t) 0) in
      if ltb (size * t) (2 ^ 63) then some (record { size = size; content = memory }, s'') else none

  -- The response has the command and the uid of the request.
  unfoldable pub create_response : IStream B W → OStream B W
  create_response s = record stream {
    dispatch = (λ arg world. emit_moved s.response_dispatch arg world) ∷ [];
  }
    where
      stream : OStream B W
      stream = ostream B e s.command s.uid
