-- ===== src/Examples/Signals.antt =====
-- The theorems on signals and slots at concrete stores.
use lnetlib.Base.{
  List, some_inj, ap, sym, ◌∙◌, length, Option, none, ℕ, zero, suc, ◌+◌, ◌≡◌, refl, Bool, true,
  false, [], ◌∷◌, ◌++◌, Option, none, some, ◌>>=◌, arith,
}
use lnetlib.Signal.State.{Signal, Connection, Store, slot, signal}
use lnetlib.Signal.Connecting.{connect, disconnect_connection, disconnect}
use lnetlib.Signal.Emitting.{Program, emit}
use lnetlib.Signal.Laws.{joint, IsFree, disconnect-connect}
use lnetlib.Signal.Ranks.{Ranked, FreeBelow, SameSignals}
use lnetlib.Signal.Nesting.{emit-SameSignals}
use lnetlib.Signal.Unlocking.{aggregate, aggregate-undefined}
use lnetlib.Signal.Calls.{on_world}

-- A signal with three joints: the second is owned by a slot, and the third is locked.
abbrev busy : Signal
busy = record signal { callbacks = joint 10 0 none ∷ joint 11 1 (some 7) ∷ joint 12 2 none ∷ [] }

abbrev signals : ℕ → Option Signal
signals zero = some busy
signals (suc zero) = some signal
signals (suc (suc n)) = none

abbrev flags : ℕ → Bool
flags (suc (suc zero)) = true
flags _ = false

abbrev store : Store ℕ
store = record { signals = signals; slots = λ o. slot; flags = flags; next = 3; world = 0 }

busy-IsFree : IsFree store 0 busy
unfolding signal
busy-IsFree = record { alive = refl; free = refl }

signal-IsFree : IsFree store 1 signal
unfolding signal
signal-IsFree = record { alive = refl; free = refl }

-- Each callback adds its number and the argument to the world, and returns the sum.
abbrev adding : ℕ → ℕ → ℕ → ℕ × ℕ
adding k a w = (k + a, w + k + a)

disconnect-connect_example :
    (c : Connection) × (m' m'' : Store ℕ) × (connect 0 13 none store ≡ some (c, m'))
    × (m'.signals 0 ≡ some (record busy { callbacks = busy.callbacks ++ joint 13 3 none ∷ [] }))
    × (disconnect 0 c m' ≡ some m'')
    × (disconnect_connection c m' ≡ some m'')
    × (m''.signals 0 ≡ some busy)
disconnect-connect_example =
    disconnect-connect 0 13 none busy store busy-IsFree
      (omega arith, (omega arith, (omega arith, tt)))

-- A program whose callbacks disconnect the first joint.
abbrev leaving : Program ℕ ℕ ℕ
leaving k a m = disconnect 0 (record { data_ = some 0; deleter = some 0 }) m >>= λ m'. some (0, m')

-- The same signals, of which the first emits the second.
abbrev outer : Signal
outer = record busy { signals = 1 ∷ [] }

abbrev nested_signals : ℕ → Option Signal
nested_signals zero = some outer
nested_signals (suc zero) = some signal
nested_signals (suc (suc n)) = none

abbrev nested : Store ℕ
nested = record store { signals = nested_signals }

abbrev rank : ℕ → ℕ
rank zero = 1
rank (suc n) = 0

nested-Ranked : Ranked rank nested
unfolding signal
nested-Ranked zero = ((omega arith, refl), tt)
nested-Ranked (suc zero) = tt
nested-Ranked (suc (suc n)) = tt

nested-FreeBelow : FreeBelow rank 2 nested
unfolding signal
nested-FreeBelow zero h = refl
nested-FreeBelow (suc zero) h = refl
nested-FreeBelow (suc (suc n)) h = refl

emit-SameSignals_example :
    (r : ℕ) × (m' : Store ℕ) × (emit (on_world adding) 0 2 0 5 nested ≡ some (r, m'))
    × SameSignals nested m'
emit-SameSignals_example =
    emit-SameSignals adding 0 rank 2 0 5 nested (omega arith) refl nested-Ranked nested-FreeBelow

-- An aggregate that counts the results.
abbrev counting : List ℕ → Store ℕ → Option (ℕ × Store ℕ)
counting r m = some (length r, m)

aggregate-undefined_example : aggregate (on_world adding) 0 counting 0 0 5 store ≡ none
aggregate-undefined_example =
    aggregate-undefined (on_world adding) 0 counting 0 0 5 store (λ r m1 m2 answer u h.
      let same : m1 ≡ m2 = ap (λ q. q.1) (some_inj h) in
      (u.0, ap (λ n. n.signals 0) (sym same) ∙ u.1, u.2))
