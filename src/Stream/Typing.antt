-- ===== src/Stream/Typing.antt =====
-- What istream.h and istream.cpp read from any bytes whatever: each value is one of its type.
use lnetlib.Base.{
  ℕ, zero, suc, ◌*◌, ◌^◌, ◌-◌, ◌≤◌, ◌<◌, ◌≡◌, ◌≢◌, refl, ap, ◌∙◌, List, [], ◌∷◌, some, arith,
  length, length-append, take, drop, replicate, All, ltb, Bool-cases, Option-cases, inl, inr,
}
use lnetlib.Bytes.{Endian, store, length-store, InRange}
use lnetlib.Bytes.Range.{
  AreBytes, append-AreBytes, take-AreBytes, drop-AreBytes, store-AreBytes, load-lt,
  replicate-AreBytes,
}
use lnetlib.Streambuf.{Streambuf}
use lnetlib.Stream.OStream.{Width, size_of, span, Chunk}
use lnetlib.Stream.IStream.{IStream, read, read_basic, read_string, read_data_chunk, c_string}
use lnetlib.Stream.RoundTrip.{Field, Memory}

length-drop : (n : ℕ) (xs : List ℕ) → length (drop n xs) ≡ length xs - n
length-drop zero xs = omega arith
length-drop (suc n) [] = omega arith
length-drop (suc n) (x ∷ xs) = omega (arith, length-drop n xs)

length-take_le : (n : ℕ) (xs : List ℕ) → length (take n xs) ≤ n
length-take_le zero xs = omega arith
length-take_le (suc n) [] = omega arith
length-take_le (suc n) (x ∷ xs) = omega (arith, length-take_le n xs)

length-replicate : (n : ℕ) → length (replicate {A = ℕ} n 0) ≡ n
length-replicate zero = refl
length-replicate (suc n) = ap suc (length-replicate n)

-- A text that C reads in memory.
abbrev IsText : List ℕ → Type 0
IsText bs = AreBytes bs × All (λ b. b ≢ 0) bs

take-IsText : (n : ℕ) (bs : List ℕ) → IsText bs → IsText (take n bs)
take-IsText zero bs h = (tt, tt)
take-IsText (suc n) [] h = (tt, tt)
take-IsText (suc n) (b ∷ bs) h =
    let more = take-IsText n bs (h.0.1, h.1.1) in ((h.0.0, more.0), (h.1.0, more.1))

c_string-IsText :
    (memory text : List ℕ) → AreBytes memory → c_string memory ≡ some text → IsText text
unfolding c_string
c_string-IsText [] text h e = cc
c_string-IsText (zero ∷ bs) text h e = let empty : text ≡ [] = ground arith in rw empty (tt, tt)
c_string-IsText (suc b ∷ bs) text h e = elim (Option-cases (c_string bs)) [
  | inl endless ↦ cc (rw endless at e)
  | inr (rest, found) ↦
      let whole : text ≡ suc b ∷ rest = ground (arith, rw found at e) in
      let more = c_string-IsText bs rest h.1 found in
      rw whole ((h.0, more.0), ((λ z. cc z), more.1))
]

-- The value is one of its type: a number or an integer fits its width, a text is made of bytes none
-- of which is zero, and is no longer than its length field can say, and a vector has all the bytes
-- of its elements.
abbrev pub IsTyped : Field → Type 0
IsTyped (Field.uint w n) = n < span w
IsTyped (Field.int w z) = InRange (span w) z
IsTyped (Field.text w bs) = AreBytes bs × All (λ b. b ≢ 0) bs × (length bs < span w)
IsTyped (Field.vector w t c) =
    (c.size < span w) × AreBytes c.content × (length c.content ≡ c.size * t)

module _ (B : Streambuf) {W : Type 0} where
  -- The bytes that are left to read.
  abbrev pub HasBytes : IStream B W → Type 0
  HasBytes s = AreBytes (B.bytes s.buffer)

module _ (B : Streambuf) (e : Endian) {W : Type 0} where
  read_bytes :
      (s : IStream B W) (n : ℕ) (memory : List ℕ)
      → HasBytes B s
      → AreBytes memory
      → AreBytes (read B e s n memory).0 × HasBytes B (read B e s n memory).1
  unfolding read
  read_bytes s n memory h k = elim (Bool-cases s.fail) [
    | inl bad ↦ rw bad (k, h)
    | inr good ↦
        rw (good, B.sgetn_lem, B.bytes-consume)
          (
            append-AreBytes (take n (B.bytes s.buffer))
                (drop (length (take n (B.bytes s.buffer))) memory) (take-AreBytes n _ h)
                (drop-AreBytes (length (take n (B.bytes s.buffer))) memory k),
            drop-AreBytes n _ h,
          )
  ]

  length-read :
      (s : IStream B W) (n : ℕ) (memory : List ℕ)
      → n ≤ length memory
      → length (read B e s n memory).0 ≡ length memory
  unfolding read
  length-read s n memory h = elim (Bool-cases s.fail) [
    | inl bad ↦ rw bad refl
    | inr good ↦
        rw (good, B.sgetn_lem)
          (omega (
            arith,
            length-append (take n (B.bytes s.buffer))
                (drop (length (take n (B.bytes s.buffer))) memory),
            length-drop (length (take n (B.bytes s.buffer))) memory,
            length-take_le n (B.bytes s.buffer),
          ))
  ]

  pub read_basic_lt :
      (w : ℕ) (s : IStream B W) (junk : ℕ)
      → HasBytes B s
      → ((read_basic B e w s junk).0 < 256 ^ w) × HasBytes B (read_basic B e w s junk).1
  unfolding read_basic
  read_basic_lt w s junk h =
      let (bytes, left) = read_bytes s w (store e w junk) h (store-AreBytes e w junk) in
      let whole : length (read B e s w (store e w junk)).0 ≡ w =
        length-read s w (store e w junk) (omega (arith, length-store e w junk))
        ∙ length-store e w junk in
      (rw whole at (load-lt e _ bytes), left)

  pub read_text :
      (w : Width) (s : IStream B W) (m : Memory) (bs : List ℕ) (s' : IStream B W)
      → HasBytes B s
      → AreBytes m.stack
      → read_string B e w s m.junk m.stack ≡ some (bs, s')
      → IsTyped (Field.text w bs) × HasBytes B s'
  unfolding read_string
  read_text w s m bs s' h k done =
      let (small, left) = read_basic_lt (size_of w) s m.junk h in
      let size = (read_basic B e (size_of w) s m.junk).0 in
      let (bytes, left') = read_bytes (read_basic B e (size_of w) s m.junk).1 size m.stack left k in
      let got = read B e (read_basic B e (size_of w) s m.junk).1 size m.stack in
      elim (Option-cases (c_string got.0)) [
        | inl endless ↦ cc (rw endless at done)
        | inr (text, found) ↦
            let short : length (take size text) < span w =
              omega (arith, small, length-take_le size text) in
            let ends : some (take size text, got.1) ≡ some (bs, s') = rw found at done in
            let cut : bs ≡ take size text = ground (arith, ends) in
            let rest : s' ≡ got.1 = ground (arith, ends) in
            let ok = take-IsText size text (c_string-IsText got.0 text bytes found) in
            rw (cut, rest) ((ok.0, ok.1, short), left')
      ]

  pub read_vector :
      (w : Width) (t : ℕ) (s : IStream B W) (m : Memory) (c : Chunk) (s' : IStream B W)
      → HasBytes B s
      → read_data_chunk B e w t s m.junk ≡ some (c, s')
      → IsTyped (Field.vector w t c) × HasBytes B s'
  unfolding read_data_chunk
  read_vector w t s m c s' h done =
      let (small, left) = read_basic_lt (size_of w) s m.junk h in
      let size = (read_basic B e (size_of w) s m.junk).0 in
      let zeros : List ℕ = replicate (size * t) 0 in
      let (bytes, left') =
        read_bytes (read_basic B e (size_of w) s m.junk).1 (size * t) zeros left
          (replicate-AreBytes (size * t)) in
      let got = read B e (read_basic B e (size_of w) s m.junk).1 (size * t) zeros in
      let whole : length got.0 ≡ size * t =
        length-read (read_basic B e (size_of w) s m.junk).1 (size * t) zeros
          (omega (arith, length-replicate (size * t)))
        ∙ length-replicate (size * t) in
      elim (Bool-cases (ltb (size * t) (2 ^ 63))) [
        | inl fits ↦
            let ends : some (record { size = size; content = got.0 }, got.1) ≡ some (c, s') =
              rw fits at done in
            let same : c ≡ record { size = size; content = got.0 } = ground (arith, ends) in
            let rest : s' ≡ got.1 = ground (arith, ends) in
            rw (same, rest) ((small, bytes, whole), left')
        | inr large ↦ cc (rw large at done)
      ]
