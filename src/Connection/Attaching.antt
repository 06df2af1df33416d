-- ===== src/Connection/Attaching.antt =====
-- The signals of a connection (connection.h) with the slots of its registry, and its destructor.
use mathlib.Core.Path.{fun_ext}
use lnetlib.Base.{
  ℕ, ◌+◌, ◌≡◌, refl, sym, true, false, [], ◌∷◌, Option, none, some, ◌>>=◌, arith, ◌==◌, ==_self,
  Bool-cases, inl, inr,
}
use lnetlib.Signal.State
use lnetlib.Signal.State.{Store, signal, update, put}
use lnetlib.Signal.Connecting.{create_connection, connect}
use lnetlib.Signal.Lifetime.{destroy_signal}
use lnetlib.Connection.Owners.{
  Emission, closed, error, received, address, Shared, destroy, connect_slots,
}

-- A signal with the slot of a registry, and the same while it emits.
abbrev pub attached : ℕ → State.Signal
attached k = record {
  held = false;
  locked = false;
  callbacks = record { callback = k; connection = k; owner = none } ∷ [];
  signals = [];
  deleters = [];
}

abbrev pub emitting : ℕ → State.Signal
emitting k = record (attached k) { held = true }

-- The signals of a connection are alive, free, and have the slots of its registry.
pub record IsAttached {W : Type 0} (m : Store W) : Type 0 where
  pub signal_0 : m.signals 0 ≡ some (attached 0)
  pub signal_1 : m.signals 1 ≡ some (attached 1)
  pub signal_2 : m.signals 2 ≡ some (attached 2)
  pub flag_0 : m.flags 0 ≡ false
  pub flag_1 : m.flags 1 ≡ false
  pub flag_2 : m.flags 2 ≡ false

-- Giving a mutex back undoes taking it.
pub update_back :
    {A : Type 0} (k : ℕ) (a b : A) (f : ℕ → A) → f k ≡ a → update k a (update k b f) ≡ f
update_back k a b f h = fun_ext λ i. elim (Bool-cases (i == k)) [
  | inl e ↦ let same : i ≡ k = ground arith in rw same (rw (==_self k) (sym h))
  | inr e ↦ rw e refl
]

-- One of the signals, of those.
pub record IsFree {W : Type 0} (e : Emission) (m : Store W) : Type 0 where
  pub alive : m.signals (address e) ≡ some (attached (address e))
  pub flag : m.flags (address e) ≡ false

pub attached-IsFree : {W : Type 0} (e : Emission) (m : Store W) → IsAttached m → IsFree e m
attached-IsFree closed m a = record { alive = a.signal_0; flag = a.flag_0 }
attached-IsFree (error code) m a = record { alive = a.signal_1; flag = a.flag_1 }
attached-IsFree received m a = record { alive = a.signal_2; flag = a.flag_2 }

module _ {R : Type 0} where
  -- One call more holds a pointer, and a signal emits.
  abbrev pub taken : Store (Shared R) → Store (Shared R)
  taken m = record m { world = record m.world { passed = m.world.passed + 1 } }

  abbrev pub begun : Emission → Store (Shared R) → Store (Shared R)
  begun e m = put (address e) (emitting (address e)) m

  abbrev pub give_back : ℕ → Store (Shared R) → Option (Store (Shared R))
  give_back g m = m.signals g >>= λ y. some (put g (record y { held = false }) m)

  pub same_signals :
      (m : Store (Shared R)) (w : Shared R) → IsAttached m → IsAttached (record m { world = w })
  same_signals m w a = record {
    signal_0 = a.signal_0;
    signal_1 = a.signal_1;
    signal_2 = a.signal_2;
    flag_0 = a.flag_0;
    flag_1 = a.flag_1;
    flag_2 = a.flag_2;
  }

  pub attach :
      (m : Store (Shared R))
      → m.next ≡ 0
      → m.signals 0 ≡ some signal
      → m.signals 1 ≡ some signal
      → m.signals 2 ≡ some signal
      → (m' : Store (Shared R)) × (connect_slots m ≡ some m') × IsAttached m' × (m'.world ≡ m.world)
  unfolding connect_slots connect create_connection signal
  attach m n h i j = (
    record m {
      signals =
          update 2 (some (attached 2))
            (update 1 (some (attached 1)) (update 0 (some (attached 0)) m.signals));
      flags = update 2 false (update 1 false (update 0 false m.flags));
      next = 3;
    },
    rw (n, h, i, j) refl,
    record {
      signal_0 = refl;
      signal_1 = refl;
      signal_2 = refl;
      flag_0 = refl;
      flag_1 = refl;
      flag_2 = refl;
    },
    refl,
  )

  -- The destructor, while none of the signals emits.
  pub destroy_lem :
      (m : Store (Shared R))
      → IsAttached m
      → (m' : Store (Shared R)) × (destroy m ≡ some m')
        × (m'.signals 0 ≡ none)
        × (m'.signals 1 ≡ none)
        × (m'.signals 2 ≡ none)
        × (m'.world ≡ m.world)
  unfolding destroy destroy_signal
  destroy_lem m a =
      let ended : ℕ → (ℕ → Option State.Signal) → ℕ → Option State.Signal =
        λ k f. update k none (update k (some (emitting k)) f) in
      (
        record m { signals = ended 0 (ended 1 (ended 2 m.signals)) },
        rw (a.signal_2, a.signal_1, a.signal_0) refl,
        refl,
        refl,
        refl,
        refl,
      )
