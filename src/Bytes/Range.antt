-- ===== src/Bytes/Range.antt =====
-- Memory as bytes, and the numbers that a host loads from them.
use mathlib.Core.List.{reverse, reverse-cons}
use native.Mathlib.Nat.{pow-suc}
use lnetlib.Base.{
  ℕ, zero, suc, ◌/◌, ◌^◌, ◌<◌, List, [], ◌∷◌, ◌++◌, arith, length, take, drop, replicate, All,
}
use lnetlib.Bytes.{
  Endian, little, big, store, store_little, load, load_little, length-reverse, InRange, of_pattern,
}

-- A byte in memory.
abbrev pub AreBytes : List ℕ → Type 0
AreBytes = All (λ b. b < 256)

pub append-AreBytes : (xs ys : List ℕ) → AreBytes xs → AreBytes ys → AreBytes (xs ++ ys)
append-AreBytes [] ys h k = k
append-AreBytes (x ∷ xs) ys h k = (h.0, append-AreBytes xs ys h.1 k)

pub take-AreBytes : (n : ℕ) (xs : List ℕ) → AreBytes xs → AreBytes (take n xs)
take-AreBytes zero xs h = tt
take-AreBytes (suc n) [] h = tt
take-AreBytes (suc n) (x ∷ xs) h = (h.0, take-AreBytes n xs h.1)

pub drop-AreBytes : (n : ℕ) (xs : List ℕ) → AreBytes xs → AreBytes (drop n xs)
drop-AreBytes zero xs h = h
drop-AreBytes (suc n) [] h = tt
drop-AreBytes (suc n) (x ∷ xs) h = drop-AreBytes n xs h.1

reverse-AreBytes : (xs : List ℕ) → AreBytes xs → AreBytes (reverse xs)
reverse-AreBytes [] h = tt
reverse-AreBytes (x ∷ xs) h =
    rw (reverse-cons x xs)
      (append-AreBytes (reverse xs) (x ∷ []) (reverse-AreBytes xs h.1) (h.0, tt))

store_little-AreBytes : (w n : ℕ) → AreBytes (store_little w n)
unfolding store_little
store_little-AreBytes zero n = tt
store_little-AreBytes (suc w) n = (omega arith, store_little-AreBytes w (n / 256))

pub store-AreBytes : (e : Endian) (w n : ℕ) → AreBytes (store e w n)
unfolding store
store-AreBytes little w n = store_little-AreBytes w n
store-AreBytes big w n = reverse-AreBytes (store_little w n) (store_little-AreBytes w n)

load_little-lt : (bs : List ℕ) → AreBytes bs → load_little bs < 256 ^ length bs
unfolding load_little
load_little-lt [] h = omega arith
load_little-lt (b ∷ bs) h = omega (arith, load_little-lt bs h.1, h.0, pow-suc 256 (length bs))

pub load-lt : (e : Endian) (bs : List ℕ) → AreBytes bs → load e bs < 256 ^ length bs
unfolding load
load-lt little bs h = load_little-lt bs h
load-lt big bs h = rw (length-reverse bs) at (load_little-lt (reverse bs) (reverse-AreBytes bs h))

pub replicate-AreBytes : (n : ℕ) → AreBytes (replicate n 0)
replicate-AreBytes zero = tt
replicate-AreBytes (suc n) = (omega arith, replicate-AreBytes n)

pub of_pattern-InRange : (m u : ℕ) → u < m → InRange m (of_pattern m u)
unfolding of_pattern
of_pattern-InRange m u h = ground arith
