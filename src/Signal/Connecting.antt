-- ===== src/Signal/Connecting.antt =====
-- Connecting to a signal and disconnecting from it (lsignal.h).
use lnetlib.Base.{
  ℕ, suc, true, false, List, [], ◌∷◌, ◌++◌, Option, none, some, ◌>>=◌, ◌==◌, if◌then◌else◌,
}
use lnetlib.Signal.State.{Joint, Signal, Connection, Store, slot, update, put, lock}

-- The first occurrence is erased.
abbrev pub erase_signal : ℕ → List ℕ → List ℕ
erase_signal sg [] = []
erase_signal sg (x ∷ xs) = if x == sg then xs else x ∷ erase_signal sg xs

unfoldable pub prepare_connection : ℕ → Connection → Connection
prepare_connection g c = record c { deleter = some g }

-- The joints without the first that has this connection, and the owner of that one.
abbrev pub without_joint : ℕ → List Joint → List Joint
without_joint d [] = []
without_joint d (j ∷ js) = if j.connection == d then js else j ∷ without_joint d js

abbrev pub owner_of : ℕ → List Joint → Option ℕ
owner_of d [] = none
owner_of d (j ∷ js) = if j.connection == d then j.owner else owner_of d js

module _ {W : Type 0} where
  -- `connect(signal *sg)` takes both mutexes, this signal's first.
  unfoldable pub connect_signal : ℕ → ℕ → Store W → Option (Store W)
  connect_signal g sg m = do
    x ← lock g m
    y ← lock sg (put g (record x { held = true }) m)
    some (
        put g (record x { signals = x.signals ++ sg ∷ [] })
          (put sg (record y { deleters = y.deleters ++ g ∷ [] }) m))

  unfoldable pub disconnect_signal : ℕ → ℕ → Store W → Option (Store W)
  disconnect_signal g sg m = do
    x ← lock g m
    some (put g (record x { signals = erase_signal sg x.signals }) m)

  -- The owner, if there is one, is told of the connection before the signal is locked.
  abbrev pub own : ℕ → ℕ → Option ℕ → Store W → Store W
  own g d none m = m
  own g d (some o) m = record m {
    slots = update o (record { data_ = some d; deleter = some g }) m.slots;
  }

  -- The new connection data has the next free address, and is not locked.
  unfoldable pub create_connection : ℕ → ℕ → Option ℕ → Store W → Option (ℕ × Store W)
  create_connection g callback owner m = do
    let d = m.next
    let m' = own g d owner (record m { next = suc d; flags = update d false m.flags })
    x ← lock g m'
    let joint : Joint = record { callback = callback; connection = d; owner = owner }
    some (d, put g (record x { callbacks = x.callbacks ++ joint ∷ [] }) m')

  -- The three forms of `connect` for a callback make it from a copy, from a moved function, or from
  -- an object and a member function of it.
  unfoldable pub connect : ℕ → ℕ → Option ℕ → Store W → Option (Connection × Store W)
  connect g callback owner m = do
    (d, m') ← create_connection g callback owner m
    some (prepare_connection g (record { data_ = some d; deleter = none }), m')

  -- What the owner of a joint knows of it is cleared.
  abbrev pub forget : Option ℕ → Store W → Store W
  forget none m = m
  forget (some o) m = record m { slots = update o slot m.slots }

  -- No joint has the null pointer for its connection.
  abbrev pub erase_joint : ℕ → Option ℕ → Signal → Store W → Store W
  erase_joint g none x m = m
  erase_joint g (some d) x m =
      put g (record x { callbacks = without_joint d x.callbacks })
        (forget (owner_of d x.callbacks) m)

  unfoldable pub destroy_connection : ℕ → Option ℕ → Store W → Option (Store W)
  destroy_connection g d m = do x ← lock g m; some (erase_joint g d x m)

  -- `connection::disconnect`.
  abbrev pub call_deleter : Option ℕ → Option ℕ → Store W → Option (Store W)
  call_deleter none d m = some m
  call_deleter (some g) d m = destroy_connection g d m

  unfoldable pub disconnect_connection : Connection → Store W → Option (Store W)
  disconnect_connection c m = call_deleter c.deleter c.data_ m

  -- `disconnect(const connection&)` of the signal.
  unfoldable pub disconnect : ℕ → Connection → Store W → Option (Store W)
  disconnect g c m = destroy_connection g c.data_ m

  -- `disconnect(slot *owner)` of the signal, `none` for the null pointer.
  unfoldable pub disconnect_slot : ℕ → Option ℕ → Store W → Option (Store W)
  disconnect_slot g none m = some m
  disconnect_slot g (some o) m = destroy_connection g (m.slots o).data_ m

  abbrev pub forget_all : List Joint → Store W → Store W
  forget_all [] m = m
  forget_all (j ∷ js) m = forget_all js (forget j.owner m)

  unfoldable pub disconnect_all : ℕ → Store W → Option (Store W)
  disconnect_all g m = do x ← lock g m; some (forget_all x.callbacks m)
