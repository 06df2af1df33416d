-- ===== src/Connection/Owners.antt =====
-- Who owns a connection (connection.h and connection.cpp): the object lives as long as a shared
-- pointer to it, and its three signals die with it. An emission hands its only pointer to the slot:
-- operator() of the signal moves its argument into the last slot it calls.
use lnetlib.Base.{
  ℕ, ◌+◌, ◌-◌, Bool, false, List, [], ◌∷◌, Option, none, some, ◌>>=◌, ◌==◌, if◌then◌else◌,
}
use lnetlib.Signal.State.{Store}
use lnetlib.Signal.Connecting.{connect}
use lnetlib.Signal.Emitting.{emit}
use lnetlib.Signal.Lifetime.{destroy_signal}

-- What a signal of the connection passes on, besides the pointer.
pub data Emission : Type 0 where
  closed : Emission
  error : ℕ → Emission
  received : Emission

-- The addresses of the signals, in the order in which the class declares them.
abbrev pub address : Emission → ℕ
address closed = 0
address (error code) = 1
address received = 2

-- `registry`: the object that has connected its slots, a server or a client. `kept`: the pointers
-- that the program keeps; `passed`: those that the calls of slots hold while they run.
pub record Shared (R : Type 0) : Type 0 where
  pub is_open : Bool
  pub registry : R
  pub kept : ℕ
  pub passed : ℕ

-- `owners`: how many pointers the registry has. Its slots, and what the program does in its own
-- slot for a message. `none`: a slot never returns, or the behaviour is undefined.
pub record Slots (R : Type 0) : Type 0 where
  pub owners : R → ℕ
  pub on_closed : R → Option R
  pub on_error : ℕ → R → Option R
  pub on_received : R → Option R
  pub act : Store (Shared R) → Option (Store (Shared R))

module _ {R : Type 0} where
  abbrev pub with_registry : R → Store (Shared R) → Store (Shared R)
  with_registry r m = record m { world = record m.world { registry = r } }

  -- The destructor: members are destroyed in the reverse order of their declaration.
  unfoldable pub destroy : Store (Shared R) → Option (Store (Shared R))
  destroy m = do m' ← destroy_signal 2 m; m'' ← destroy_signal 1 m'; destroy_signal 0 m''

  -- The slots of a registry are the only ones of a new connection.
  unfoldable pub connect_slots : Store (Shared R) → Option (Store (Shared R))
  connect_slots m = do
    (c, m') ← connect 0 0 none m
    (c', m'') ← connect 1 1 none m'
    (c'', m''') ← connect 2 2 none m''
    some m'''

module _ {R : Type 0} (x : Slots R) where
  unfoldable pub pointers : Shared R → ℕ
  pointers w = w.kept + w.passed + x.owners w.registry

  abbrev pub drop_last : Store (Shared R) → Option (Store (Shared R))
  drop_last m = if pointers m.world == 0 then destroy m else some m

  -- The call of a slot ends, and its pointer goes; with the last one goes the connection.
  unfoldable pub let_go : Store (Shared R) → Option (Store (Shared R))
  let_go m = drop_last (record m { world = record m.world { passed = m.world.passed - 1 } })

  abbrev pub call_slot : Emission → Store (Shared R) → Option (Store (Shared R))
  call_slot closed m = x.on_closed m.world.registry >>= λ r. some (with_registry r m)
  call_slot (error code) m = x.on_error code m.world.registry >>= λ r. some (with_registry r m)
  call_slot received m = x.on_received m.world.registry >>= λ r. x.act (with_registry r m)

  abbrev pub callback : ℕ → Emission → Store (Shared R) → Option (Unit {0} × Store (Shared R))
  callback k e m = call_slot e m >>= λ m'. let_go m' >>= λ m''. some (tt, m'')

  -- An emission with a new pointer to the connection.
  unfoldable pub emit_shared : Emission → Store (Shared R) → Option (Store (Shared R))
  emit_shared e m = do
    (r, m') ←
        emit callback tt 1 (address e) e
          (record m { world = record m.world { passed = m.world.passed + 1 } })
    some m'

  abbrev pub emit_each : List Emission → Store (Shared R) → Option (Store (Shared R))
  emit_each [] m = some m
  emit_each (e ∷ es) m = emit_shared e m >>= emit_each es

  -- `close`, where the socket's shutdown succeeds.
  unfoldable pub close_shared : Store (Shared R) → Option (Store (Shared R))
  close_shared m = emit_shared closed (record m { world = record m.world { is_open = false } })
