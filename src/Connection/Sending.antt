-- ===== src/Connection/Sending.antt =====
-- How a connection sends (connection.h and connection.cpp): streams are opened with fresh uids, and
-- the buffers that they dispatch are framed and written one at a time.
use lnetlib.Base.{
  ℕ, ◌+◌, ◌%◌, ◌^◌, true, false, List, [], ◌∷◌, ◌++◌, Option, none, some, ◌>>=◌, length, ◌==◌,
  if◌then◌else◌,
}
use lnetlib.Bytes.{Endian, store}
use lnetlib.Streambuf.{Streambuf}
use lnetlib.Signal.Emit.{MoveSlot}
use lnetlib.Stream.OStream.{OStream, ostream}
use lnetlib.Connection.State.{Package, async_write, Connection, Program, record_effect, check_error}

module _ (B : Streambuf) (e : Endian) where
  open B use {Buffer, new_buffer, sputn, bytes}

  size_buffer : Buffer → Buffer
  size_buffer buffer = sputn new_buffer (store e 8 (length (bytes buffer) % 2 ^ 64))

  -- The frame: the number of bytes as a uint64_t, then the bytes.
  unfoldable pub create_package : Buffer → Package B
  unfolding size_buffer
  create_package buffer = record {
    buffer = bytes (size_buffer buffer) ∷ bytes buffer ∷ [];
    size_buffer = size_buffer buffer;
    data_buffer = buffer;
  }

module _ {B : Streambuf} {K : Type 0} where
  unfoldable pub send_package : Package B → Connection B K → Connection B K
  send_package pkg c = record (record_effect (async_write pkg) c) { socket_locked = true }

  -- Under the mutex: the oldest waiting package is written next.
  unfoldable pub write_next : Connection B K → Connection B K
  unfolding send_package
  write_next c = elim c.packages [
    | [] ↦ record c { socket_locked = false }
    | pkg ∷ rest ↦ send_package pkg (record c { packages = rest })
  ]

  -- The completion of a write.
  unfoldable pub write_handler : Program B K → Connection B K → Option ℕ → Option (Connection B K)
  write_handler p c err = check_error p c err >>= λ r. some (if r.0 then write_next r.1 else r.1)

-- `_callbacks[uid] = cb`.
unfoldable pub insert {ℓ} : {K : Type ℓ} → ℕ → K → List (ℕ × K) → List (ℕ × K)
insert uid cb [] = (uid, cb) ∷ []
insert uid cb ((i, k) ∷ rest) = if i == uid then (uid, cb) ∷ rest else (i, k) ∷ insert uid cb rest

module _ (B : Streambuf) (e : Endian) {K : Type 0} where
  -- create_dispatch_slot: the slot dereferences the buffer that it is given.
  unfoldable pub dispatch_slot : MoveSlot B.Buffer (Connection B K)
  dispatch_slot none c = none
  dispatch_slot (some buffer) c =
      let pkg = create_package B e buffer in
      some (
        if c.socket_locked
        then record c { packages = c.packages ++ pkg ∷ [] }
        else send_package pkg c)

  unfoldable pub create_stream : Connection B K → ℕ → OStream B (Connection B K) × Connection B K
  create_stream c command = (
    record (ostream B e command c.uid_counter) { dispatch = dispatch_slot ∷ [] },
    record c { uid_counter = (c.uid_counter + 1) % 2 ^ 64 },
  )

  -- The overload with a callback for the response.
  unfoldable pub create_stream_for :
      Connection B K → ℕ → K → OStream B (Connection B K) × Connection B K
  create_stream_for c command cb =
      let (stream, c') = create_stream c command in
      (stream, record c' { callbacks = insert stream.uid cb c'.callbacks })
