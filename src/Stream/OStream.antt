-- ===== src/Stream/OStream.antt =====
-- ostream.h and ostream.cpp: a stream that collects a command, its uid and typed values in a buffer
-- for its `dispatch` signal.
use lnetlib.Base.{
  ℕ, ◌*◌, ◌%◌, ◌^◌, Bool, true, false, List, [], Option, none, some, ◌>>=◌, length, take, ltb,
  if◌then◌else◌,
}
use lnetlib.Bytes.{Endian, store, ℤ, to_pattern}
use lnetlib.Streambuf.{Streambuf}
use lnetlib.Signal.Emit.{MoveSlot, emit_moved}

-- sizeof of the fixed-width integers.
pub data Width : Type 0 where
  one two four eight : Width

abbrev pub size_of : Width → ℕ
size_of one = 1
size_of two = 2
size_of four = 4
size_of eight = 8

-- How many values an unsigned integer of the width has.
abbrev pub span : Width → ℕ
span w = 256 ^ size_of w

-- `std::vector<T>`: how many elements, and their bytes in memory.
pub record Chunk : Type 0 where
  pub size : ℕ
  pub content : List ℕ

-- The buffer is absent once it has been moved to a slot.
pub record OStream (B : Streambuf) (W : Type 0) : Type 0 where
  pub buffer : Option B.Buffer
  pub sended : Bool
  pub uid : ℕ
  pub dispatch : List (MoveSlot B.Buffer W)

module _ (B : Streambuf) (e : Endian) {W : Type 0} where
  open B use {Buffer, new_buffer, sputn}

  -- The constructor: `command` is cast to uint64_t, and both words head the buffer.
  unfoldable pub ostream : ℕ → ℕ → OStream B W
  ostream command uid = record {
    buffer = some (sputn (sputn new_buffer (store e 8 (command % 2 ^ 64))) (store e 8 uid));
    sended = false;
    uid = uid;
    dispatch = [];
  }

  -- `none`: the stream writes through its pointer to a buffer that it no longer owns.
  unfoldable pub write : OStream B W → List ℕ → Option (OStream B W)
  write s bs = elim s.buffer [
    | none ↦ none
    | some b ↦ some (record s { buffer = some (sputn b bs) })
  ]

  unfoldable pub write_basic : ℕ → OStream B W → ℕ → Option (OStream B W)
  unfolding write
  write_basic w s value = write s (store e w value)

  -- write_uint8 to write_uint64; write_float32 and write_float64 at the bit pattern.
  unfoldable pub write_uint : Width → OStream B W → ℕ → Option (OStream B W)
  unfolding write_basic
  write_uint w s value = write_basic (size_of w) s value

  -- write_int8 to write_int64.
  unfoldable pub write_int : Width → OStream B W → ℤ → Option (OStream B W)
  unfolding write_basic
  write_int w s value = write_basic (size_of w) s (to_pattern (span w) value)

  -- The length is cast to the type of the length field; the text is written whole.
  unfoldable pub write_string : Width → OStream B W → List ℕ → Option (OStream B W)
  unfolding write_basic write
  write_string w s text = do s' ← write_basic (size_of w) s (length text % span w); write s' text

  -- The overload on a pointer: `memory` is what stands from `data` on. `none` also where it ends
  -- before the `size * sizeof(T)` bytes that are written (`t` is sizeof(T)).
  unfoldable pub write_data_chunk_from : Width → ℕ → OStream B W → List ℕ → ℕ → Option (OStream B W)
  unfolding write_basic write
  write_data_chunk_from w t s memory size =
      let n = size * t % 2 ^ 64 in
      if ltb (length memory) n
      then none
      else (do s' ← write_basic (size_of w) s size; write s' (take n memory))

  -- The overload on a vector, whose size is converted to the type of the length field.
  unfoldable pub write_data_chunk : Width → ℕ → OStream B W → Chunk → Option (OStream B W)
  unfolding write_data_chunk_from
  write_data_chunk w t s chunk = write_data_chunk_from w t s chunk.content (chunk.size % span w)

  -- The buffer goes to the slots of `dispatch` at the first call. Any later call does nothing.
  unfoldable pub send : OStream B W → W → Option (OStream B W × W)
  send s world = if s.sended then some (s, world) else (do
    world' ← emit_moved s.dispatch s.buffer world
    some (record s { buffer = none; sended = true }, world'))

  -- The destructor.
  unfoldable pub destroy : OStream B W → W → Option W
  unfolding send
  destroy s world = do (s', world') ← send s world; some world'
