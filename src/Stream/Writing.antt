-- ===== src/Stream/Writing.antt =====
-- What each write of ostream.h and ostream.cpp appends to the buffer.
use lnetlib.Base.{
  ℕ, ◌*◌, ◌%◌, ◌^◌, ◌≤◌, ◌≡◌, refl, ◌∙◌, List, ◌++◌, append_assoc, Option, some, ◌>>=◌, length,
  take, le→ltb,
}
use lnetlib.Bytes.{Endian, store, ℤ, to_pattern}
use lnetlib.Streambuf.{Streambuf}
use lnetlib.Stream.OStream.{
  OStream, ostream, write, write_basic, write_uint, write_int, write_string, write_data_chunk_from,
  write_data_chunk, Width, size_of, span, Chunk,
}

-- The stream owns a buffer with the bytes `bs`.
abbrev pub Holds : (B : Streambuf) {W : Type 0} → OStream B W → List ℕ → Type 0
Holds B s bs = (b : B.Buffer) × (s.buffer ≡ some b) × (B.bytes b ≡ bs)

-- `r` succeeds with a stream that holds `bs` and differs from `s` in its buffer at most.
abbrev pub Wrote :
    (B : Streambuf) {W : Type 0} → OStream B W → List ℕ → Option (OStream B W) → Type 0
Wrote B {W} s bs r =
    (s' : OStream B W) × (r ≡ some s')
    × Holds B s' bs
    × (s'.sended ≡ s.sended)
    × (s'.uid ≡ s.uid)
    × (s'.dispatch ≡ s.dispatch)

pub ostream-Holds :
    (B : Streambuf) (e : Endian) (W : Type 0) (command uid : ℕ)
    → Holds B {W = W} (ostream B e command uid) (store e 8 (command % 2 ^ 64) ++ store e 8 uid)
unfolding ostream
ostream-Holds B e W command uid = (_, refl, simp (B.bytes-sputn, B.bytes-new_buffer))

module _ (B : Streambuf) (e : Endian) {W : Type 0} where
  pub write-Wrote :
      (s : OStream B W) (bs more : List ℕ)
      → Holds B s bs
      → Wrote B s (bs ++ more) (write B e s more)
  unfolding write
  write-Wrote s bs more (b, owned, eq) = (
    record s { buffer = some (B.sputn b more) },
    rw (owned, write),
    (B.sputn b more, refl, rw (B.bytes-sputn, eq)),
    refl,
    refl,
    refl,
  )

  -- Two writes, the second on what the first left.
  pub Wrote-then :
      (s : OStream B W) (bs cs : List ℕ) (r : Option (OStream B W))
      (next : OStream B W → Option (OStream B W))
      → Wrote B s bs r
      → ((t : OStream B W) → Holds B t bs → Wrote B t cs (next t))
      → Wrote B s cs (r >>= next)
  Wrote-then s bs cs r next (t, done, holds, sended, uid, dispatch) follow =
      let (u, done', holds', sended', uid', dispatch') = follow t holds in
      (u, rw done done', holds', sended' ∙ sended, uid' ∙ uid, dispatch' ∙ dispatch)

  write_basic-Wrote :
      (w : ℕ) (s : OStream B W) (bs : List ℕ) (value : ℕ)
      → Holds B s bs
      → Wrote B s (bs ++ store e w value) (write_basic B e w s value)
  unfolding write_basic
  write_basic-Wrote w s bs value h = write-Wrote s bs (store e w value) h

  pub write_uint-Wrote :
      (w : Width) (s : OStream B W) (bs : List ℕ) (value : ℕ)
      → Holds B s bs
      → Wrote B s (bs ++ store e (size_of w) value) (write_uint B e w s value)
  unfolding write_uint
  write_uint-Wrote w s bs value h = write-Wrote s bs _ h

  pub write_int-Wrote :
      (w : Width) (s : OStream B W) (bs : List ℕ) (value : ℤ)
      → Holds B s bs
      → Wrote B s (bs ++ store e (size_of w) (to_pattern (span w) value)) (write_int B e w s value)
  unfolding write_int
  write_int-Wrote w s bs value h = write-Wrote s bs _ h

  pub write_string-Wrote :
      (w : Width) (s : OStream B W) (bs text : List ℕ)
      → Holds B s bs
      → Wrote B s
          (bs ++ (store e (size_of w) (length text % span w) ++ text))
          (write_string B e w s text)
  unfolding write_string
  write_string-Wrote w s bs text h =
      let size : List ℕ = store e (size_of w) (length text % span w) in
      rw (← append_assoc bs size text) (
        Wrote-then s (bs ++ size) ((bs ++ size) ++ text) (write B e s size) (λ t. write B e t text)
          (write-Wrote s bs size h) (λ t k. write-Wrote t (bs ++ size) text k))

  pub write_data_chunk_from-Wrote :
      (w : Width) (t : ℕ) (s : OStream B W) (bs memory : List ℕ) (size : ℕ)
      → size * t % 2 ^ 64 ≤ length memory
      → Holds B s bs
      → Wrote B s
          (bs ++ (store e (size_of w) size ++ take (size * t % 2 ^ 64) memory))
          (write_data_chunk_from B e w t s memory size)
  unfolding write_data_chunk_from
  write_data_chunk_from-Wrote w t s bs memory size fits h =
      let head : List ℕ = store e (size_of w) size in
      let body : List ℕ = take (size * t % 2 ^ 64) memory in
      rw (← append_assoc bs head body, le→ltb _ _ fits)
        (Wrote-then s (bs ++ head) ((bs ++ head) ++ body) (write B e s head) (λ u. write B e u body)
          (write-Wrote s bs head h) (λ u k. write-Wrote u (bs ++ head) body k))

  pub write_data_chunk-Wrote :
      (w : Width) (t : ℕ) (s : OStream B W) (bs : List ℕ) (chunk : Chunk)
      → chunk.size % span w * t % 2 ^ 64 ≤ length chunk.content
      → Holds B s bs
      → Wrote B s
          (bs
            ++ (store e (size_of w) (chunk.size % span w)
                ++ take (chunk.size % span w * t % 2 ^ 64) chunk.content))
          (write_data_chunk B e w t s chunk)
  unfolding write_data_chunk
  write_data_chunk-Wrote w t s bs chunk fits h =
      write_data_chunk_from-Wrote w t s bs chunk.content (chunk.size % span w) fits h
