-- ===== src/Signal/Lifetime.antt =====
-- Copying and destroying signals and slots (lsignal.h).
use lnetlib.Base.{ℕ, true, List, [], ◌∷◌, ◌++◌, Option, none, some, ◌>>=◌}
use lnetlib.Signal.State.{Joint, Store, signal, update, put, lock}
use lnetlib.Signal.Connecting.{disconnect_signal, disconnect_connection, forget_all}

-- The joints of the other signal that have no owner are appended, and share their connection data.
unfoldable pub copy_callbacks : List Joint → List Joint → List Joint
copy_callbacks own [] = own
copy_callbacks own (j ∷ js) = elim j.owner [
  | none ↦ copy_callbacks (own ++ j ∷ []) js
  | some o ↦ copy_callbacks own js
]

module _ {W : Type 0} where
  -- The copy constructor, for a new signal at the address `g`.
  unfoldable pub copy_signal : ℕ → ℕ → Store W → Option (Store W)
  copy_signal g rhs m = do
    y ← lock rhs m
    some (put g (record signal { locked = y.locked; callbacks = copy_callbacks [] y.callbacks }) m)

  -- Copy assignment takes both mutexes, this signal's first.
  unfoldable pub assign : ℕ → ℕ → Store W → Option (Store W)
  assign g rhs m = do
    x ← lock g m
    y ← lock rhs (put g (record x { held = true }) m)
    some (
        put g (record x { locked = y.locked; callbacks = copy_callbacks x.callbacks y.callbacks })
          m)

  -- The deleters of a signal, each of which disconnects it from the signal that it was connected
  -- to.
  abbrev pub call_deleters : List ℕ → ℕ → Store W → Option (Store W)
  call_deleters [] g m = some m
  call_deleters (d ∷ ds) g m = disconnect_signal d g m >>= call_deleters ds g

  -- The destructor holds the mutex.
  unfoldable pub destroy_signal : ℕ → Store W → Option (Store W)
  destroy_signal g m = do
    x ← lock g m
    m' ← call_deleters x.deleters g (forget_all x.callbacks (put g (record x { held = true }) m))
    some (record m' { signals = update g none m'.signals })

  -- The destructor of a slot.
  unfoldable pub destroy_slot : ℕ → Store W → Option (Store W)
  destroy_slot o m = disconnect_connection (m.slots o) m
