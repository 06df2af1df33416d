-- ===== src/Signal/Emit.antt =====
-- signal::operator() of lnetlib/lnetlib/lsignal/lsignal.h as the streams use it: a signal with no
-- nested signals, whose slots are never locked, emitting an argument that can only be moved. The
-- first slot takes the argument, and every later slot finds it empty.
use lnetlib.Base.{◌≡◌, refl, List, [], ◌∷◌, Option, none, some, ◌>>=◌}

-- A slot gets the argument, empty once it has been moved from, and the state of the program.
-- It returns the new state, or `none` where the behaviour is undefined.
abbrev pub MoveSlot : Type 0 → Type 0 → Type 0
MoveSlot A W = Option A → W → Option W

module _ {A W : Type 0} where
  unfoldable pub emit_moved : List (MoveSlot A W) → Option A → W → Option W
  emit_moved [] arg w = some w
  emit_moved (slot ∷ slots) arg w = slot arg w >>= emit_moved slots none

  -- With one slot, an emission is a call of it.
  pub emit_moved_one :
      (slot : MoveSlot A W) (arg : Option A) (w : W) → emit_moved (slot ∷ []) arg w ≡ slot arg w
  unfolding emit_moved
  emit_moved_one slot arg w = go (slot arg w)
    where
      go : (r : Option W) → (r >>= emit_moved [] none) ≡ r
      go none = refl
      go (some v) = refl
