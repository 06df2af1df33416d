-- ===== src/Connection/EndToEnd.antt =====
-- The two ends of a connection together (connection.cpp).
use native.Mathlib.Nat.{mod-eq_of_lt}
use lnetlib.Base.{
  ℕ, ◌^◌, ◌<◌, ◌≡◌, refl, ap, List, [], ◌∷◌, ◌++◌, map, append-nil, arith, length, All,
}
use lnetlib.Bytes.{Endian}
use lnetlib.Streambuf.{Streambuf}
use lnetlib.Connection.State.{Package, received}
use lnetlib.Connection.Sending.{create_package}
use lnetlib.Connection.Receiving.{find}
use lnetlib.Connection.Frames.{
  Message, IsMessage, message_bytes, length-message_bytes, frame, frames, delivery_of, routed,
}

-- The bytes that the socket is given for a sequence of packages.
abbrev pub flatten : List (List ℕ) → List ℕ
flatten [] = []
flatten (bs ∷ rest) = bs ++ flatten rest

abbrev pub wire : {B : Streambuf} → List (Package B) → List ℕ
wire [] = []
wire (pkg ∷ rest) = flatten pkg.buffer ++ wire rest

module _ (B : Streambuf) (e : Endian) where
  -- The buffers hold these messages.
  abbrev pub Carry : List B.Buffer → List Message → Type 0
  Carry [] [] = Unit {0}
  Carry (b ∷ bs) (m ∷ ms) = (B.bytes b ≡ message_bytes e m) × Carry bs ms
  Carry _ _ = ⊥

  pub create_package-frame :
      (b : B.Buffer) (m : Message)
      → IsMessage m
      → B.bytes b ≡ message_bytes e m
      → flatten (create_package B e b).buffer ≡ frame e m
  unfolding create_package
  create_package-frame b m v h =
      let fits : length (message_bytes e m) < 2 ^ 64 = omega (arith, v, length-message_bytes e m) in
      simp (B.bytes-sputn, B.bytes-new_buffer, append-nil, h, mod-eq_of_lt fits)

  pub wire-frames :
      (bs : List B.Buffer) (ms : List Message)
      → All IsMessage ms
      → Carry bs ms
      → wire (map (create_package B e) bs) ≡ frames e ms
  wire-frames [] [] v h = refl
  wire-frames (b ∷ bs) (m ∷ ms) v h =
      rw (create_package-frame b m v.0 h.0, wire-frames bs ms v.1 h.1)
  wire-frames [] (m ∷ ms) v h = absurd h
  wire-frames (b ∷ bs) [] v h = absurd h

  pub routed-nil :
      {K : Type 0} (ms : List Message)
      → routed B e {K = K} [] ms ≡ map (λ m. received (delivery_of B e m)) ms
  unfolding find
  routed-nil [] = refl
  routed-nil (m ∷ ms) = ap (◌∷◌ (received (delivery_of B e m))) (routed-nil ms)
