-- ===== src/Connection/Lifespan.antt =====
-- How long a connection lives: what an emission of its signals leaves, by the pointers that are
-- left when its slot returns (connection.cpp, with the signals of lsignal.h).
use mathlib.Core.Path.{fun_ext}
use lnetlib.Base.{
  ℕ, ◌+◌, ◌-◌, ◌≡◌, refl, true, false, Option, none, some, ◌>>=◌, arith, ◌==◌, ==_self,
  if◌then◌else◌, Bool-cases, Option-cases, inl, inr,
}
use lnetlib.Signal.State.{Store}
use lnetlib.Signal.Emitting.{emit, call_joints, call_joint, release}
use lnetlib.Signal.Lifetime.{destroy_signal}
use lnetlib.Connection.Owners.{
  Emission, closed, error, received, address, Shared, Slots, with_registry, destroy, pointers,
  let_go, call_slot, emit_shared,
}
use lnetlib.Connection.Attaching.{
  IsAttached, update_back, IsFree, attached-IsFree, taken, begun, give_back, same_signals,
}

module _ {R : Type 0} (x : Slots R) where
  -- What the slot of the registry does at an emission.
  abbrev pub heard : Emission → R → Option R
  heard closed r = x.on_closed r
  heard (error code) r = x.on_error code r
  heard received r = x.on_received r

  -- The pointers to the connection, of which `r` has some, besides that of the emission.
  abbrev pub others : Store (Shared R) → R → ℕ
  others m r = m.world.kept + m.world.passed + x.owners r

  let_go_last :
      (m : Store (Shared R))
      → (others m m.world.registry == 0) ≡ true
      → let_go x (taken m) ≡ destroy m
  unfolding let_go pointers
  let_go_last m z = let e : m.world.passed + 1 - 1 ≡ m.world.passed = omega arith in rw (e, z) refl

  pub let_go_other :
      (m : Store (Shared R))
      → (others m m.world.registry == 0) ≡ false
      → let_go x (taken m) ≡ some m
  unfolding let_go pointers
  let_go_other m z = let e : m.world.passed + 1 - 1 ≡ m.world.passed = omega arith in rw (e, z) refl

  tidy_slot :
      (g : ℕ) (r : Option (Store (Shared R)))
      → ((r >>= λ m. some (tt {0}, m)) >>= release g >>= λ r. some r.1) ≡ (r >>= give_back g)
  tidy_slot g none = refl
  tidy_slot g (some m) = elim (Option-cases (m.signals g)) [
    | inl e ↦ rw e refl
    | inr (y, e) ↦ rw e refl
  ]

  tidy :
      (g : ℕ) (r : Option (Store (Shared R)))
      → ((((r >>= λ m'. let_go x m' >>= λ m''. some (tt {0}, m'')) >>= release g) >>= λ r.
          some r.1))
        ≡ (r >>= λ m'. let_go x m' >>= give_back g)
  tidy g none = refl
  tidy g (some m) = tidy_slot g (let_go x m)

  -- An emission is the call of the one slot.
  pub emit_lem :
      (e : Emission) (m : Store (Shared R))
      → IsFree e m
      → emit_shared x e m
        ≡ (call_slot x e (taken (begun e m)) >>= λ m'. let_go x m' >>= give_back (address e))
  unfolding emit_shared emit call_joints call_joint
  emit_lem e m f = rw (f.alive, f.flag) (tidy (address e) (call_slot x e (taken (begun e m))))

  destroy-begun : (e : Emission) (m : Store (Shared R)) → IsAttached m → destroy (begun e m) ≡ none
  unfolding destroy destroy_signal
  destroy-begun closed m a = rw (a.signal_2, a.signal_1) refl
  destroy-begun (error code) m a = rw a.signal_2 refl
  destroy-begun received m a = refl

  pub back_lem :
      (e : Emission) (m : Store (Shared R))
      → IsFree e m
      → give_back (address e) (begun e m) ≡ some m
  back_lem e m f = rw (==_self (address e), update_back (address e) _ _ m.signals f.alive) refl

  -- The end of the only slot of an emission, and of the emission.
  pub end_lem :
      (e : Emission) (m : Store (Shared R))
      → IsAttached m
      → (let_go x (taken (begun e m)) >>= give_back (address e))
        ≡ (if others m m.world.registry == 0 then none else some m)
  end_lem e m a = elim (Bool-cases (others m m.world.registry == 0)) [
    | inl z ↦ rw (let_go_last (begun e m) z, destroy-begun e m a, z) refl
    | inr z ↦ rw (let_go_other (begun e m) z, z) (back_lem e m (attached-IsFree e m a))
  ]

  -- What an emission leaves, by what its slot does to the registry.
  abbrev pub outcome : Store (Shared R) → Option R → Option (Store (Shared R))
  outcome m o = o >>= λ r. if others m r == 0 then none else some (with_registry r m)

  ending :
      (e : Emission) (m : Store (Shared R)) (o : Option R)
      → IsAttached m
      → ((o >>= λ r. some (with_registry r (taken (begun e m)))) >>= λ m'.
          let_go x m' >>= give_back (address e))
        ≡ outcome m o
  ending e m none a = refl
  ending e m (some r) a =
      end_lem e (with_registry r m) (same_signals m (record m.world { registry = r }) a)

  -- Where the program's slot for a message does nothing, an emission of any of the three signals
  -- does what the slot of the registry does, and gives the mutex back; but where that leaves no
  -- pointer besides the one that the emission has handed over, the behaviour is undefined: the
  -- connection is destroyed while its signal emits.
  pub emit_shared-heard :
      (e : Emission) (m : Store (Shared R))
      → IsAttached m
      → ((n : Store (Shared R)) → x.act n ≡ some n)
      → emit_shared x e m ≡ outcome m (heard e m.world.registry)
  unfolding let_go pointers
  emit_shared-heard closed m a quiet =
      rw (emit_lem closed m (attached-IsFree closed m a))
        (ending closed m (x.on_closed m.world.registry) a)
  emit_shared-heard (error code) m a quiet =
      rw (emit_lem (error code) m (attached-IsFree (error code) m a))
        (ending (error code) m (x.on_error code m.world.registry) a)
  emit_shared-heard received m a quiet =
      rw (emit_lem received m (attached-IsFree received m a), fun_ext quiet)
        (ending received m (x.on_received m.world.registry) a)

  -- A connection that is destroyed cannot emit.
  pub emit_shared_gone :
      (e : Emission) (m : Store (Shared R))
      → m.signals (address e) ≡ none
      → emit_shared x e m ≡ none
  unfolding emit_shared emit
  emit_shared_gone e m h = rw h refl
