-- ===== src/Signal/State.antt =====
-- The objects of lsignal.h and the pointers between them.
use lnetlib.Base.{ℕ, Bool, false, List, [], Option, none, some, ◌>>=◌, ◌==◌, if◌then◌else◌}

-- A callback is known by a number, a `connection_data`, a slot and a signal by its address. A joint
-- connects a callback to a signal, for an owner if it has one.
pub record Joint : Type 0 where
  pub callback : ℕ
  pub connection : ℕ
  pub owner : Option ℕ

-- `held`: whether the signal's mutex is held. A deleter of a signal is a call of `disconnect` on
-- the signal that it captures.
pub record Signal : Type 0 where
  pub held : Bool
  pub locked : Bool
  pub callbacks : List Joint
  pub signals : List ℕ
  pub deleters : List ℕ

-- The class `connection`, and its subclass `slot`: the connection data, and the signal whose
-- `destroy_connection` the deleter calls. Both pointers may be null.
pub record Connection : Type 0 where
  pub data_ : Option ℕ
  pub deleter : Option ℕ

-- The objects in memory: the signals that are alive, the slots, the flag `locked` of each
-- `connection_data`, the next free address for one, and all else that callbacks work on.
pub record Store (W : Type 0) : Type 0 where
  pub signals : ℕ → Option Signal
  pub slots : ℕ → Connection
  pub flags : ℕ → Bool
  pub next : ℕ
  pub world : W

-- The constructors.
unfoldable pub signal : Signal
signal = record { held = false; locked = false; callbacks = []; signals = []; deleters = [] }

unfoldable pub slot : Connection
slot = record { data_ = none; deleter = none }

-- A map with one key changed.
abbrev pub update {ℓ} : {A : Type ℓ} → ℕ → A → (ℕ → A) → ℕ → A
update k a f i = if i == k then a else f i

abbrev pub unheld : Signal → Option Signal
unheld x = if x.held then none else some x

module _ {W : Type 0} where
  abbrev pub put : ℕ → Signal → Store W → Store W
  put g x m = record m { signals = update g (some x) m.signals }

  -- Locking the mutex takes a signal that is alive and a mutex that is not held: otherwise the
  -- behaviour is undefined, or the thread waits for itself.
  abbrev pub lock : ℕ → Store W → Option Signal
  lock g m = m.signals g >>= unheld

  unfoldable pub is_locked : ℕ → Store W → Option Bool
  is_locked g m = m.signals g >>= λ x. some x.locked

  unfoldable pub set_lock : ℕ → Bool → Store W → Option (Store W)
  set_lock g b m = m.signals g >>= λ x. some (put g (record x { locked = b }) m)

  -- On a connection whose data pointer is null, the behaviour is undefined.
  unfoldable pub is_connection_locked : Connection → Store W → Option Bool
  is_connection_locked c m = c.data_ >>= λ d. some (m.flags d)

  unfoldable pub set_connection_lock : Connection → Bool → Store W → Option (Store W)
  set_connection_lock c b m = c.data_ >>= λ d. some (record m { flags = update d b m.flags })
