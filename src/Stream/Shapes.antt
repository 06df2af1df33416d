-- ===== src/Stream/Shapes.antt =====
-- Reading values of any types from any bytes whatever (istream.h and istream.cpp).
use lnetlib.Base.{◌≡◌, List, [], ◌∷◌}
use lnetlib.Bytes.{Endian}
use lnetlib.Streambuf.{Streambuf}
use lnetlib.Stream.IStream.{IStream}
use lnetlib.Stream.RoundTrip.{Field, Shape, shape_of}
use lnetlib.Stream.Typing.{IsTyped, HasBytes}

-- A text or a vector is among the values that are asked for.
abbrev pub Risky : List Shape → Type 0
Risky [] = ⊥
Risky (Shape.uint w ∷ hs) = Risky hs
Risky (Shape.int w ∷ hs) = Risky hs
Risky (Shape.text w ∷ hs) = Unit {0}
Risky (Shape.vector w t ∷ hs) = Unit {0}

module _ (B : Streambuf) (e : Endian) {W : Type 0} where
  -- A value of the shape, and what is left.
  abbrev Good : Shape → Field → IStream B W → Type 0
  Good h f s = (shape_of f ≡ h) × IsTyped f × HasBytes B s
