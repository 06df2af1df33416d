-- ===== src/Stream/Reading.antt =====
-- What each read of istream.h and istream.cpp takes from the front of the buffer.
use lnetlib.Base.{
  ℕ, zero, suc, ◌*◌, ◌^◌, ◌<◌, ◌≡◌, ◌≢◌, refl, ap, false, List, [], ◌∷◌, ◌++◌, append-nil, some,
  arith, length, take, drop, replicate, All, le→ltb, lt→ltb, take-append, drop-append,
}
use lnetlib.Bytes.{
  Endian, store, load-store, length-store, ℤ, InRange, to_pattern, to_pattern-lt,
  of_pattern-to_pattern,
}
use lnetlib.Streambuf.{Streambuf}
use lnetlib.Stream.OStream.{Width, size_of, span, Chunk}
use lnetlib.Stream.IStream.{
  IStream, read, read_basic, istream, read_uint, read_int, read_string, read_data_chunk, c_string,
}

-- No read has come short so far, and `bs` is what is left.
abbrev pub Left : (B : Streambuf) {W : Type 0} → IStream B W → List ℕ → Type 0
Left B s bs = (s.fail ≡ false) × (B.bytes s.buffer ≡ bs)

drop_all {ℓ} : {A : Type ℓ} (xs : List A) (n : ℕ) → length xs ≡ n → drop n xs ≡ []
drop_all {A} xs n len = rw (← len) (go xs)
  where
    go : (ys : List A) → drop (length ys) ys ≡ []
    go [] = refl
    go (y ∷ ys) = go ys

length-replicate {ℓ} : {A : Type ℓ} (n : ℕ) (a : A) → length (replicate n a) ≡ n
length-replicate zero a = refl
length-replicate (suc n) a = ap suc (length-replicate n a)

-- A text with no zero byte in it is the front of the C string that begins with it.
pub c_string-append :
    (text beyond more : List ℕ)
    → All (λ b. b ≢ 0) text
    → c_string beyond ≡ some more
    → c_string (text ++ beyond) ≡ some (text ++ more)
unfolding c_string
c_string-append [] beyond more h e = e
c_string-append (zero ∷ text) beyond more h e = absurd (h.0 refl)
c_string-append (suc b ∷ text) beyond more h e = rw (c_string-append text beyond more h.1 e)

drop_at : (bs rest : List ℕ) (n : ℕ) → length bs ≡ n → drop n (bs ++ rest) ≡ rest
drop_at bs rest n len = rw (← len) (drop-append bs rest)

module _ (B : Streambuf) (e : Endian) {W : Type 0} where
  abbrev advance : ℕ → IStream B W → IStream B W
  advance n s = record s { buffer = B.consume n s.buffer }

  advance-Left :
      (s : IStream B W) (bs rest : List ℕ) (n : ℕ)
      → length bs ≡ n
      → Left B s (bs ++ rest)
      → Left B (advance n s) rest
  advance-Left s bs rest n len (good, eq) = (good, rw (B.bytes-consume, eq) (drop_at bs rest n len))

  -- A read of bytes that are there overwrites the front of the memory with them.
  read-eq :
      (s : IStream B W) (bs rest memory : List ℕ) (n : ℕ)
      → length bs ≡ n
      → Left B s (bs ++ rest)
      → read B e s n memory ≡ (bs ++ drop n memory, advance n s)
  unfolding read
  read-eq s bs rest memory n len (good, eq) =
      let got : B.sgetn n s.buffer ≡ bs = rw (B.sgetn_lem, eq, ← len) (take-append bs rest) in
      rw (good, read, got, len, le→ltb n n (omega arith))

  read_basic-eq :
      (w : ℕ) (s : IStream B W) (n junk : ℕ) (rest : List ℕ)
      → n < 256 ^ w
      → Left B s (store e w n ++ rest)
      → read_basic B e w s junk ≡ (n, advance w s)
  unfolding read_basic
  read_basic-eq w s n junk rest h left = rw (
    read-eq s (store e w n) rest (store e w junk) w (length-store e w n) left,
    drop_all (store e w junk) w (length-store e w junk),
    append-nil,
    load-store e w n h,
  )

  pub read_basic-Left :
      (w : ℕ) (s : IStream B W) (n junk : ℕ) (rest : List ℕ)
      → n < 256 ^ w
      → Left B s (store e w n ++ rest)
      → ((read_basic B e w s junk).0 ≡ n) × Left B (read_basic B e w s junk).1 rest
  read_basic-Left w s n junk rest h left =
      rw (read_basic-eq w s n junk rest h left)
        (refl, advance-Left s (store e w n) rest w (length-store e w n) left)

  -- The constructor takes the two head words off, whatever the members held before.
  pub istream-eq :
      (buffer : B.Buffer) (command uid c u : ℕ) (rest : List ℕ)
      → c < 2 ^ 64
      → u < 2 ^ 64
      → B.bytes buffer ≡ store e 8 c ++ (store e 8 u ++ rest)
      → istream B e {W = W} buffer command uid ≡ record {
        buffer = B.consume 8 (B.consume 8 buffer);
        fail = false;
        uid = u;
        command = c;
        response_dispatch = [];
      }
  unfolding istream
  istream-eq buffer command uid c u rest hc hu eq =
      let s0 : IStream B W = record {
        buffer = buffer;
        fail = false;
        uid = uid;
        command = command;
        response_dispatch = [];
      } in
      let s1 : IStream B W = advance 8 s0 in
      let left : Left B s1 (store e 8 u ++ rest) =
        advance-Left s0 (store e 8 c) (store e 8 u ++ rest) 8 (length-store e 8 c) (refl, eq) in
      rw (
        read_basic-eq 8 s0 c command (store e 8 u ++ rest) hc (refl, eq),
        read_basic-eq 8 s1 u uid rest hu left,
      )

  pub read_uint-Left :
      (w : Width) (s : IStream B W) (n junk : ℕ) (rest : List ℕ)
      → n < span w
      → Left B s (store e (size_of w) n ++ rest)
      → ((read_uint B e w s junk).0 ≡ n) × Left B (read_uint B e w s junk).1 rest
  unfolding read_uint
  read_uint-Left w s n junk rest h left = read_basic-Left (size_of w) s n junk rest h left

  pub read_int-Left :
      (w : Width) (s : IStream B W) (z : ℤ) (junk : ℕ) (rest : List ℕ)
      → InRange (span w) z
      → Left B s (store e (size_of w) (to_pattern (span w) z) ++ rest)
      → ((read_int B e w s junk).0 ≡ z) × Left B (read_int B e w s junk).1 rest
  unfolding read_int
  read_int-Left w s z junk rest h left =
      let n : ℕ = to_pattern (span w) z in
      rw (read_basic-eq (size_of w) s n junk rest (to_pattern-lt (span w) z h) left) (
        of_pattern-to_pattern (span w) z h,
        advance-Left s (store e (size_of w) n) rest (size_of w) (length-store e (size_of w) n) left,
      )

  -- The text is the C string in the memory, where `text` has overwritten the front of `stack`.
  pub read_text :
      (w : Width) (s : IStream B W) (junk : ℕ) (text rest stack found : List ℕ)
      → length text < span w
      → c_string (text ++ drop (length text) stack) ≡ some found
      → Left B s (store e (size_of w) (length text) ++ (text ++ rest))
      → (s' : IStream B W) × (read_string B e w s junk stack ≡ some (take (length text) found, s'))
        × Left B s' rest
  unfolding read_string
  read_text w s junk text rest stack found fits ends left =
      let t : IStream B W = advance (size_of w) s in
      let left' : Left B t (text ++ rest) =
        advance-Left s (store e (size_of w) (length text)) (text ++ rest) (size_of w)
          (length-store e (size_of w) (length text)) left in
      (
        advance (length text) t,
        rw (
          read_basic-eq (size_of w) s (length text) junk (text ++ rest) fits left,
          read-eq t text rest stack (length text) refl left',
          ends,
        ),
        advance-Left t text rest (length text) refl left',
      )

  -- `stack`: the array for the text, and behind it a zero byte somewhere.
  pub read_string-Left :
      (w : Width) (s : IStream B W) (junk : ℕ) (text more rest stack : List ℕ)
      → All (λ b. b ≢ 0) text
      → length text < span w
      → c_string (drop (length text) stack) ≡ some more
      → Left B s (store e (size_of w) (length text) ++ (text ++ rest))
      → (s' : IStream B W) × (read_string B e w s junk stack ≡ some (text, s')) × Left B s' rest
  read_string-Left w s junk text more rest stack free fits ends left =
      rw (take-append text more) at (
        read_text w s junk text rest stack (text ++ more) fits
          (c_string-append text (drop (length text) stack) more free ends) left)

  pub read_data_chunk-Left :
      (w : Width) (t : ℕ) (s : IStream B W) (junk : ℕ) (chunk : Chunk) (rest : List ℕ)
      → chunk.size < span w
      → chunk.size * t < 2 ^ 63
      → length chunk.content ≡ chunk.size * t
      → Left B s (store e (size_of w) chunk.size ++ (chunk.content ++ rest))
      → (s' : IStream B W) × (read_data_chunk B e w t s junk ≡ some (chunk, s')) × Left B s' rest
  unfolding read_data_chunk
  read_data_chunk-Left w t s junk chunk rest fits small len left =
      let n : ℕ = chunk.size * t in
      let u : IStream B W = advance (size_of w) s in
      let left' : Left B u (chunk.content ++ rest) =
        advance-Left s (store e (size_of w) chunk.size) (chunk.content ++ rest) (size_of w)
          (length-store e (size_of w) chunk.size) left in
      (
        advance n u,
        rw (
          read_basic-eq (size_of w) s chunk.size junk (chunk.content ++ rest) fits left,
          read-eq u chunk.content rest (replicate n 0) n len left',
          drop_all {A = ℕ} (replicate n 0) n (length-replicate n 0),
          append-nil,
          lt→ltb _ _ small,
        ),
        advance-Left u chunk.content rest n len left',
      )

-- The constructed stream is past the two head words.
pub istream-Left :
    (B : Streambuf) (e : Endian) (W : Type 0) (buffer : B.Buffer) (command uid c u : ℕ)
    (rest : List ℕ)
    → c < 2 ^ 64
    → u < 2 ^ 64
    → B.bytes buffer ≡ store e 8 c ++ (store e 8 u ++ rest)
    → Left B (istream B e {W = W} buffer command uid) rest
istream-Left B e W buffer command uid c u rest hc hu eq =
    rw
      (
        istream-eq B e {W = W} buffer command uid c u rest hc hu eq,
        B.bytes-consume,
        B.bytes-consume,
        eq,
        drop_at (store e 8 c) _ 8 (length-store e 8 c),
        drop_at (store e 8 u) rest 8 (length-store e 8 u),
      )
      (refl, refl)
