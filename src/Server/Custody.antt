-- ===== src/Server/Custody.antt =====
-- A connection of a server through its life (server.cpp and connection.cpp): what its reads make it
-- emit, and the pointers to it that the program takes and lets go of.
use lnetlib.Base.{
  ℕ, ◌+◌, ◌-◌, ◌<◌, ◌≡◌, Bool, false, ◌||◌, List, [], ◌∷◌, Option, none, some, ◌>>=◌, ◌==◌, ltb,
  if◌then◌else◌, ◌⊎◌,
}
use lnetlib.Signal.State.{Store}
use lnetlib.Connection.Owners.{
  closed, error, received, Shared, Slots, destroy, pointers, emit_shared,
}
use lnetlib.Connection.Attaching.{IsAttached}
use lnetlib.Connection.Shutting.{closing}
use lnetlib.Server.State.{Server, Program}
use lnetlib.Server.Registry.{IsRegistered}
use lnetlib.Server.Owners.{count, server_slots}

-- The peer leaves, a read or a write fails with another code, a message comes in, a write
-- completes; and the program copies a pointer to the connection, or lets go of one.
pub data Happening : Type 0 where
  leaves : Happening
  fails : ℕ → Happening
  gets : Happening
  quits : Happening
  completes : Happening
  copies : Happening
  drops : Happening

module _ (p : Program) (conn : ℕ) where
  abbrev pub slots : Slots Server
  slots = server_slots p conn some

  -- Outside of the slots, the last pointer takes the connection along.
  abbrev pub drop_kept : Store (Shared Server) → Option (Store (Shared Server))
  drop_kept m = if pointers slots m.world == 0 then destroy m else some m

  abbrev pub with_kept : ℕ → Store (Shared Server) → Store (Shared Server)
  with_kept n m = record m { world = record m.world { kept = n } }

  -- The handler of a write uses members of the connection, which must be alive.
  unfoldable pub happen : Happening → Store (Shared Server) → Option (Store (Shared Server))
  happen leaves m = emit_shared slots closed m
  happen (fails code) m = emit_shared slots (error code) m
  happen gets m = emit_shared slots received m
  happen quits m = emit_shared (closing slots) received m
  happen completes m = m.signals 0 >>= λ x. some m
  happen copies m = some (if pointers slots m.world == 0 then m else with_kept (m.world.kept + 1) m)
  happen drops m = if m.world.kept == 0 then some m else drop_kept (with_kept (m.world.kept - 1) m)

  unfoldable pub life : List Happening → Store (Shared Server) → Option (Store (Shared Server))
  life [] m = some m
  life (x ∷ xs) m = happen x m >>= life xs

-- What matters of a connection: whether the server lists it, and the pointers of the program.
pub record Custody : Type 0 where
  pub listed : Bool
  pub copies_kept : ℕ

-- A connection that nobody has any more is used; or the last pointer goes in a slot.
abbrev pub is_owned : Custody → Bool
is_owned c = c.listed || ltb 0 c.copies_kept

abbrev pub fate : Happening → Custody → Option Custody
fate leaves c = if ltb 0 c.copies_kept then some (record c { listed = false }) else none
fate (fails code) c = if is_owned c then some c else none
fate gets c = if is_owned c then some c else none
fate quits c = if ltb 0 c.copies_kept then some (record c { listed = false }) else none
fate completes c = if is_owned c then some c else none
fate copies c = some (if is_owned c then record c { copies_kept = c.copies_kept + 1 } else c)
fate drops c = some (record c { copies_kept = c.copies_kept - 1 })

abbrev pub fates : List Happening → Custody → Option Custody
fates [] c = some c
fates (x ∷ xs) c = fate x c >>= fates xs

abbrev pub custody : ℕ → Store (Shared Server) → Custody
custody conn m = record {
  listed = ltb 0 (count conn m.world.registry.connections);
  copies_kept = m.world.kept;
}

-- The connection is alive and has owners, or it is destroyed and has none.
pub record IsAlive (conn : ℕ) (m : Store (Shared Server)) : Type 0 where
  pub attached : IsAttached m
  pub owned : 0 < m.world.kept + count conn m.world.registry.connections

pub record IsGone (conn : ℕ) (m : Store (Shared Server)) : Type 0 where
  pub signal_0 : m.signals 0 ≡ none
  pub signal_1 : m.signals 1 ≡ none
  pub signal_2 : m.signals 2 ≡ none
  pub unkept : m.world.kept ≡ 0
  pub unlisted : count conn m.world.registry.connections ≡ 0

pub record IsSound (conn : ℕ) (m : Store (Shared Server)) : Type 0 where
  pub registered : IsRegistered m.world.registry
  pub settled : m.world.passed ≡ 0
  pub life_or_death : IsAlive conn m ⊎ IsGone conn m
