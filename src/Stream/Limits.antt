-- ===== src/Stream/Limits.antt =====
-- Reading texts with a zero byte, and messages that end too early (istream.h and istream.cpp).
use lnetlib.Base.{
  ℕ, zero, suc, ◌≤◌, ◌<◌, ◌≡◌, ◌≢◌, refl, ap, true, List, [], ◌∷◌, ◌++◌, append-nil, append_assoc,
  some, arith, length, length-append, take, drop, All, lt→ltb,
}
use lnetlib.Bytes.{Endian, store, load, load-store}
use lnetlib.Streambuf.{Streambuf}
use lnetlib.Stream.OStream.{Width, size_of, span}
use lnetlib.Stream.IStream.{IStream, read, read_basic, read_uint, read_string, c_string}
use lnetlib.Stream.Reading.{Left, c_string-append, read_text}

take_all {ℓ} : {A : Type ℓ} (xs : List A) (n : ℕ) → length xs ≤ n → take n xs ≡ xs
take_all [] zero h = refl
take_all [] (suc n) h = refl
take_all (x ∷ xs) zero h = absurd (omega arith)
take_all (x ∷ xs) (suc n) h = ap (◌∷◌ x) (take_all xs n (omega arith))

drop_past {ℓ} : {A : Type ℓ} (xs : List A) (n : ℕ) → length xs ≤ n → drop n xs ≡ []
drop_past [] zero h = refl
drop_past [] (suc n) h = refl
drop_past (x ∷ xs) zero h = absurd (omega arith)
drop_past (x ∷ xs) (suc n) h = drop_past xs n (omega arith)

c_string-zero : (bs : List ℕ) → c_string (0 ∷ bs) ≡ some []
unfolding c_string
c_string-zero bs = refl

module _ (B : Streambuf) (e : Endian) {W : Type 0} where
  -- A text with a zero byte in it, of a length that fits the type of its length, is read back cut
  -- before its first zero byte from a buffer in which it was written, although the whole text is
  -- taken from the buffer.
  pub read_string_cut :
      (w : Width) (s : IStream B W) (junk : ℕ) (front back rest stack : List ℕ)
      → All (λ b. b ≢ 0) front
      → length (front ++ 0 ∷ back) < span w
      → Left B s (store e (size_of w) (length (front ++ 0 ∷ back)) ++ ((front ++ 0 ∷ back) ++ rest))
      → (s' : IStream B W) × (read_string B e w s junk stack ≡ some (front, s')) × Left B s' rest
  read_string_cut w s junk front back rest stack free fits left =
      let text : List ℕ = front ++ 0 ∷ back in
      let behind : List ℕ = drop (length text) stack in
      let cut : c_string (text ++ behind) ≡ some front = rw (
        append_assoc front (0 ∷ back) behind,
        c_string-append front (0 ∷ back ++ behind) [] free (c_string-zero _),
        append-nil,
      ) in
      rw (take_all front (length text) (omega (arith, length-append front (0 ∷ back)))) at
        (read_text B e w s junk text rest stack front fits cut left)

  -- On a stream in good state, a number of which not all bytes have arrived is made of those bytes
  -- and of whatever the reader's variable held. Only failbit tells; and a next read of the same
  -- width then returns what its variable held, and leaves the stream as it is.
  pub read_uint_short :
      (w : Width) (s : IStream B W) (junk later : ℕ) (bs : List ℕ)
      → length bs < size_of w
      → later < span w
      → Left B s bs
      → ((read_uint B e w s junk).0 ≡ load e (bs ++ drop (length bs) (store e (size_of w) junk)))
        × ((read_uint B e w s junk).1.fail ≡ true)
        × (read_uint B e w (read_uint B e w s junk).1 later ≡ (later, (read_uint B e w s junk).1))
  unfolding read_uint read_basic read
  read_uint_short w s junk later bs short fits (good, left) =
      let n : ℕ = size_of w in
      let got : B.sgetn n s.buffer ≡ bs = rw (B.sgetn_lem, left) (take_all bs n (omega arith)) in
      rw (good, got, lt→ltb (length bs) n short, load-store e n later fits) (refl, refl, refl)
