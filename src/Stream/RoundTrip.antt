-- ===== src/Stream/RoundTrip.antt =====
-- A whole message: a command, a uid and a list of typed values, written by ostream and read back by
-- istream (ostream.h, ostream.cpp, istream.h and istream.cpp).
use native.Mathlib.Nat.{mod-eq_of_lt}
use lnetlib.Base.{
  ℕ, ◌*◌, ◌%◌, ◌^◌, ◌<◌, ◌≡◌, ◌≢◌, refl, sym, ap, ◌∙◌, List, [], ◌∷◌, ◌++◌, map, append-nil,
  append_assoc, Option, none, some, ◌>>=◌, arith, length, take, drop, All,
}
use lnetlib.Bytes.{Endian, store, ℤ, InRange, to_pattern}
use lnetlib.Streambuf.{Streambuf}
use lnetlib.Stream.OStream.{
  OStream, ostream, write_uint, write_int, write_string, write_data_chunk, Width, size_of, span,
  Chunk,
}
use lnetlib.Stream.IStream.{
  IStream, istream, read_uint, read_int, read_string, read_data_chunk, c_string,
}
use lnetlib.Stream.Writing.{
  Holds, Wrote, Wrote-then, ostream-Holds, write_uint-Wrote, write_int-Wrote, write_string-Wrote,
  write_data_chunk-Wrote,
}
use lnetlib.Stream.Reading.{
  Left, istream-eq, istream-Left, read_uint-Left, read_int-Left, read_string-Left,
  read_data_chunk-Left,
}

take-length {ℓ} : {A : Type ℓ} (xs : List A) → take (length xs) xs ≡ xs
take-length [] = refl
take-length (x ∷ xs) = ap (◌∷◌ x) (take-length xs)

-- A typed value; a vector comes with the size of its elements.
pub data Field : Type 0 where
  uint : Width → ℕ → Field
  int : Width → ℤ → Field
  text : Width → List ℕ → Field
  vector : Width → ℕ → Chunk → Field

-- The type of a value, by which the reader asks for it.
pub data Shape : Type 0 where
  uint int text : Width → Shape
  vector : Width → ℕ → Shape

abbrev pub shape_of : Field → Shape
shape_of (Field.uint w n) = Shape.uint w
shape_of (Field.int w z) = Shape.int w
shape_of (Field.text w bs) = Shape.text w
shape_of (Field.vector w t c) = Shape.vector w t

-- What the reader's local variable held before, and its memory from a local array on.
pub record Memory : Type 0 where
  pub junk : ℕ
  pub stack : List ℕ

-- The value fits its type and the type of its length, and a text has no zero byte.
abbrev pub Fits : Field → Type 0
Fits (Field.uint w n) = n < span w
Fits (Field.int w z) = InRange (span w) z
Fits (Field.text w bs) = All (λ b. b ≢ 0) bs × (length bs < span w)
Fits (Field.vector w t c) =
    (c.size < span w) × (c.size * t < 2 ^ 63) × (length c.content ≡ c.size * t)

-- Behind the array for a text the reader's memory has a zero byte somewhere.
abbrev pub Terminated : Field → Memory → Type 0
Terminated (Field.text w bs) m = (more : List ℕ) × (c_string (drop (length bs) m.stack) ≡ some more)
Terminated _ m = Unit {0}

abbrev pub AllTerminated : List Field → List Memory → Type 0
AllTerminated [] ms = Unit {0}
AllTerminated (f ∷ fs) [] = ⊥
AllTerminated (f ∷ fs) (m ∷ ms) = Terminated f m × AllTerminated fs ms

module _ (e : Endian) where
  -- The wire format: the length of a text or a vector stands before its bytes.
  abbrev pub encode : Field → List ℕ
  encode (Field.uint w n) = store e (size_of w) n
  encode (Field.int w z) = store e (size_of w) (to_pattern (span w) z)
  encode (Field.text w bs) = store e (size_of w) (length bs) ++ bs
  encode (Field.vector w t c) = store e (size_of w) c.size ++ c.content

  abbrev pub encode_all : List Field → List ℕ
  encode_all [] = []
  encode_all (f ∷ fs) = encode f ++ encode_all fs

module _ (B : Streambuf) (e : Endian) {W : Type 0} where
  unfoldable pub write_field : OStream B W → Field → Option (OStream B W)
  write_field s (Field.uint w n) = write_uint B e w s n
  write_field s (Field.int w z) = write_int B e w s z
  write_field s (Field.text w bs) = write_string B e w s bs
  write_field s (Field.vector w t c) = write_data_chunk B e w t s c

  unfoldable pub write_fields : OStream B W → List Field → Option (OStream B W)
  unfolding write_field
  write_fields s [] = some s
  write_fields s (f ∷ fs) = write_field s f >>= λ s'. write_fields s' fs

  unfoldable pub read_field : IStream B W → Shape → Memory → Option (Field × IStream B W)
  read_field s (Shape.uint w) m =
      let (n, s') = read_uint B e w s m.junk in some (Field.uint w n, s')
  read_field s (Shape.int w) m = let (z, s') = read_int B e w s m.junk in some (Field.int w z, s')
  read_field s (Shape.text w) m =
      read_string B e w s m.junk m.stack >>= λ r. some (Field.text w r.0, r.1)
  read_field s (Shape.vector w t) m =
      read_data_chunk B e w t s m.junk >>= λ r. some (Field.vector w t r.0, r.1)

  unfoldable pub read_fields :
      IStream B W → List Shape → List Memory → Option (List Field × IStream B W)
  read_fields s [] ms = some ([], s)
  read_fields s (h ∷ hs) [] = none
  read_fields s (h ∷ hs) (m ∷ ms) =
      read_field s h m >>= λ r. read_fields r.1 hs ms >>= λ q. some (r.0 ∷ q.0, q.1)

  write_field-Wrote :
      (s : OStream B W) (bs : List ℕ) (f : Field)
      → Fits f
      → Holds B s bs
      → Wrote B s (bs ++ encode e f) (write_field s f)
  unfolding write_field
  write_field-Wrote s bs (Field.uint w n) h k = write_uint-Wrote B e w s bs n k
  write_field-Wrote s bs (Field.int w z) h k = write_int-Wrote B e w s bs z k
  write_field-Wrote s bs (Field.text w t) h k =
      rw (mod-eq_of_lt h.1) at (write_string-Wrote B e w s bs t k)
  write_field-Wrote s bs (Field.vector w t c) h k =
      let n : c.size % span w ≡ c.size = mod-eq_of_lt h.0 in
      let len : c.size * t % 2 ^ 64 ≡ length c.content =
        let small : c.size * t < 2 ^ 64 = omega arith in mod-eq_of_lt small ∙ sym h.2 in
      rw (n, len, take-length c.content) at
        (write_data_chunk-Wrote B e w t s bs c (rw (n, len) (omega arith)) k)

  pub write_fields-Wrote :
      (s : OStream B W) (bs : List ℕ) (fs : List Field)
      → All Fits fs
      → Holds B s bs
      → Wrote B s (bs ++ encode_all e fs) (write_fields s fs)
  unfolding write_fields
  write_fields-Wrote s bs [] h k = (s, refl, rw append-nil k, refl, refl, refl)
  write_fields-Wrote s bs (f ∷ fs) h k = rw (← append_assoc bs (encode e f) (encode_all e fs)) (
      Wrote-then B e s (bs ++ encode e f) _ (write_field s f) (λ t. write_fields t fs)
        (write_field-Wrote s bs f h.0 k) (λ t l. write_fields-Wrote t (bs ++ encode e f) fs h.1 l))

  -- `r` succeeds with `x` and leaves `rest` in the buffer.
  abbrev Got : {A : Type 0} → A → List ℕ → Option (A × IStream B W) → Type 0
  Got x rest r = (s' : IStream B W) × (r ≡ some (x, s')) × Left B s' rest

  read_field-Got :
      (s : IStream B W) (f : Field) (m : Memory) (rest : List ℕ)
      → Fits f
      → Terminated f m
      → Left B s (encode e f ++ rest)
      → Got f rest (read_field s (shape_of f) m)
  unfolding read_field
  read_field-Got s (Field.uint w n) m rest h z k =
      let r = read_uint-Left B e w s n m.junk rest h k in
      ((read_uint B e w s m.junk).1, rw (r.0), r.1)
  read_field-Got s (Field.int w n) m rest h z k =
      let r = read_int-Left B e w s n m.junk rest h k in
      ((read_int B e w s m.junk).1, rw (r.0), r.1)
  read_field-Got s (Field.text w bs) m rest h z k =
      let r =
        read_string-Left B e w s m.junk bs z.0 rest m.stack h.0 h.1 z.1 (rw append_assoc at k) in
      (r.0, rw (r.1), r.2)
  read_field-Got s (Field.vector w t c) m rest h z k =
      let r = read_data_chunk-Left B e w t s m.junk c rest h.0 h.1 h.2 (rw append_assoc at k) in
      (r.0, rw (r.1), r.2)

  pub read_fields-Got :
      (s : IStream B W) (fs : List Field) (ms : List Memory) (rest : List ℕ)
      → All Fits fs
      → AllTerminated fs ms
      → Left B s (encode_all e fs ++ rest)
      → Got fs rest (read_fields s (map shape_of fs) ms)
  unfolding read_fields
  read_fields-Got s [] ms rest h z k = (s, refl, k)
  read_fields-Got s (f ∷ fs) [] rest h z k = absurd z
  read_fields-Got s (f ∷ fs) (m ∷ ms) rest h z k =
      let r = read_field-Got s f m (encode_all e fs ++ rest) h.0 z.0 (rw append_assoc at k) in
      let q = read_fields-Got (r.0) fs ms rest h.1 z.1 (r.2) in (q.0, rw (r.1, q.1), q.2)

module _ (B : Streambuf) (e : Endian) (V W : Type 0) where
  -- Whatever command, uid and values are written, with values that fit their types, a reader with
  -- the same byte order gets the same command, the same uid and the same values in the same order,
  -- and nothing is left; the reader's memory may hold anything, but for a zero byte somewhere
  -- behind each array for a text.
  pub read_fields-write_fields :
      (command uid j k : ℕ) (fs : List Field) (ms : List Memory)
      → command < 2 ^ 64
      → uid < 2 ^ 64
      → All Fits fs
      → AllTerminated fs ms
      → (s : OStream B V) × (b : B.Buffer) × (t : IStream B W) × (write_fields B e
            (ostream B e command uid)
            fs
          ≡ some s)
        × (s.buffer ≡ some b)
        × ((istream B e {W = W} b j k).command ≡ command)
        × ((istream B e {W = W} b j k).uid ≡ uid)
        × (read_fields B e (istream B e b j k) (map shape_of fs) ms ≡ some (fs, t))
        × (B.bytes t.buffer ≡ [])
  read_fields-write_fields command uid j k fs ms hc hu fits ends =
      let head : List ℕ = store e 8 command ++ store e 8 uid in
      let body : List ℕ = encode_all e fs in
      let (s, done, (b, owned, bytes), _, _, _) =
        write_fields-Wrote B e {W = V} (ostream B e command uid) head fs fits
          (rw (mod-eq_of_lt hc) at (ostream-Holds B e V command uid)) in
      let framed : B.bytes b ≡ store e 8 command ++ (store e 8 uid ++ body) =
        bytes ∙ append_assoc (store e 8 command) (store e 8 uid) body in
      let opened = istream-eq B e {W = W} b j k command uid body hc hu framed in
      let left = istream-Left B e W b j k command uid body hc hu framed in
      let (t, read, rest) =
        read_fields-Got B e (istream B e {W = W} b j k) fs ms [] fits ends (rw append-nil left) in
      (s, b, t, done, owned, ap (λ r. r.command) opened, ap (λ r. r.uid) opened, read, rest.1)
