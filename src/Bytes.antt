-- ===== src/Bytes.antt =====
-- The object representation of integers, as `write(reinterpret_cast<const char*>(&data),
-- sizeof(T))` of ostream.h stores them and `read_basic` of istream.h loads them. A byte is a number
-- below 256, and an unsigned integer of `w` bytes is a number below 256 ^ w.
pub mod Range
use mathlib.Core.List.{reverse, reverse-reverse, reverse-cons}
use native.Mathlib.Nat.{pow-suc}
use lnetlib.Base.{
  ℕ, zero, suc, ◌+◌, ◌-◌, ◌*◌, ◌/◌, ◌%◌, ◌^◌, ◌<◌, ◌≡◌, refl, ap, List, [], ◌∷◌, arith, length,
  length-append, ltb, if◌then◌else◌,
}

-- The byte order of a host.
pub data Endian : Type 0 where
  little big : Endian

-- Lowest byte first.
pub store_little : ℕ → ℕ → List ℕ
store_little zero n = []
store_little (suc w) n = (n % 256) ∷ store_little w (n / 256)

pub load_little : List ℕ → ℕ
load_little [] = 0
load_little (b ∷ bs) = b + 256 * load_little bs

unfoldable pub store : Endian → ℕ → ℕ → List ℕ
unfolding store_little
store little w n = store_little w n
store big w n = reverse (store_little w n)

unfoldable pub load : Endian → List ℕ → ℕ
unfolding load_little
load little bs = load_little bs
load big bs = load_little (reverse bs)

length-store_little : (w n : ℕ) → length (store_little w n) ≡ w
unfolding store_little
length-store_little zero n = refl
length-store_little (suc w) n = ap suc (length-store_little w (n / 256))

pub length-reverse {ℓ} : {A : Type ℓ} (xs : List A) → length (reverse xs) ≡ length xs
length-reverse [] = refl
length-reverse (x ∷ xs) =
    omega
      (arith, ap length (reverse-cons x xs), length-append (reverse xs) (x ∷ []), length-reverse xs)

pub length-store : (e : Endian) (w n : ℕ) → length (store e w n) ≡ w
unfolding store
length-store little w n = length-store_little w n
length-store big w n = rw (length-reverse (store_little w n)) (length-store_little w n)

load_little-store_little : (w n : ℕ) → n < 256 ^ w → load_little (store_little w n) ≡ n
unfolding store_little load_little
load_little-store_little zero n h = omega arith
load_little-store_little (suc w) n h =
    omega (arith, load_little-store_little w (n / 256) (omega (arith, pow-suc 256 w)))

-- What a host stores it loads again, whatever its byte order.
pub load-store : (e : Endian) (w n : ℕ) → n < 256 ^ w → load e (store e w n) ≡ n
unfolding store load
load-store little w n h = load_little-store_little w n h
load-store big w n h = rw (reverse-reverse (store_little w n)) (load_little-store_little w n h)

-- A signed integer: `negsuc n` is -(n + 1).
pub data ℤ : Type 0 where
  pos : ℕ → ℤ
  negsuc : ℕ → ℤ

-- `InRange m z`: two's complement with `m` patterns has a pattern for `z`.
abbrev pub InRange : ℕ → ℤ → Type 0
InRange m (pos n) = n + n < m
InRange m (negsuc n) = n + n + 1 < m

-- The bit pattern of a signed integer among `m`, and the integer of a pattern.
unfoldable pub to_pattern : ℕ → ℤ → ℕ
to_pattern m (pos n) = n
to_pattern m (negsuc n) = m - 1 - n

unfoldable pub of_pattern : ℕ → ℕ → ℤ
of_pattern m u = if ltb (u + u) m then pos u else negsuc (m - 1 - u)

pub to_pattern-lt : (m : ℕ) (z : ℤ) → InRange m z → to_pattern m z < m
unfolding to_pattern
to_pattern-lt m (pos n) h = omega arith
to_pattern-lt m (negsuc n) h = omega arith

pub of_pattern-to_pattern : (m : ℕ) (z : ℤ) → InRange m z → of_pattern m (to_pattern m z) ≡ z
unfolding to_pattern of_pattern
of_pattern-to_pattern m (pos n) h = ground arith
of_pattern-to_pattern m (negsuc n) h = ground arith
