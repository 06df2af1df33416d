-- ===== src/Connection/Shutting.antt =====
-- A program that closes a connection of its own in the slot for a message (connection.cpp).
use lnetlib.Base.{◌≡◌, refl, false, Option, none, some, ◌>>=◌, arith, ◌==◌, if◌then◌else◌}
use lnetlib.Signal.State.{Store}
use lnetlib.Connection.Owners.{
  closed, received, Shared, Slots, with_registry, let_go, emit_shared, close_shared,
}
use lnetlib.Connection.Attaching.{
  IsAttached, IsFree, attached-IsFree, taken, begun, give_back, same_signals,
}
use lnetlib.Connection.Lifespan.{others, let_go_other, emit_lem, back_lem, end_lem}

module _ {R : Type 0} where
  abbrev shut : Store (Shared R) → Store (Shared R)
  shut m = record m { world = record m.world { is_open = false } }

module _ {R : Type 0} (x : Slots R) where
  -- Closing while a call holds a pointer destroys nothing.
  close_held :
      (m : Store (Shared R)) (o : Option R)
      → IsFree closed m
      → ((o >>= λ r. some (with_registry r (taken (begun closed (shut (taken m)))))) >>= λ m'.
          let_go x m' >>= give_back 0)
        ≡ (o >>= λ r. some (with_registry r (shut (taken m))))
  close_held m none f = refl
  close_held m (some r) f =
      let n : Store (Shared R) = with_registry r (shut (taken m)) in
      let held : (others x n r == 0) ≡ false = ground arith in
      rw (let_go_other x (begun closed n) held)
        (back_lem x closed n (record { alive = f.alive; flag = f.flag }))

  close_lem :
      (m : Store (Shared R))
      → IsFree closed m
      → close_shared x (taken m)
        ≡ (x.on_closed m.world.registry >>= λ r. some (with_registry r (shut (taken m))))
  unfolding close_shared
  close_lem m f =
      rw (emit_lem x closed (shut (taken m)) (record { alive = f.alive; flag = f.flag }))
        (close_held m (x.on_closed m.world.registry) f)

module _ {R : Type 0} (x : Slots R) where
  -- The program's slot for a message closes the connection.
  abbrev pub closing : Slots R
  closing = record x { act = close_shared x }

  abbrev pub left : Store (Shared R) → R → Option (Store (Shared R))
  left m r =
      if others x m r == 0
      then none
      else some (record m { world = record m.world { is_open = false; registry = r } })

  close_end :
      (m : Store (Shared R)) (o : Option R)
      → IsAttached m
      → ((o >>= λ r. some (with_registry r (shut (taken (begun received m))))) >>= λ m'.
          let_go closing m' >>= give_back 2)
        ≡ (o >>= left m)
  close_end m none a = refl
  close_end m (some r) a =
      end_lem closing received (with_registry r (shut m))
        (same_signals m (record m.world { registry = r; is_open = false }) a)

  act_end :
      (m : Store (Shared R)) (o : Option R)
      → IsAttached m
      → ((o >>= λ r. close_shared x (with_registry r (taken (begun received m)))) >>= λ m'.
          let_go closing m' >>= give_back 2)
        ≡ (o >>= λ r. x.on_closed r >>= left m)
  act_end m none a = refl
  act_end m (some r) a =
      rw
        (close_lem x (with_registry r (begun received m))
          (record { alive = a.signal_0; flag = a.flag_0 }))
        (close_end m (x.on_closed r) a)

  -- A slot for a message that closes the connection.
  pub emit_shared-closing :
      (m : Store (Shared R))
      → IsAttached m
      → emit_shared closing received m
        ≡ (x.on_received m.world.registry >>= λ r. x.on_closed r >>= left m)
  emit_shared-closing m a =
      rw (emit_lem closing received m (attached-IsFree received m a))
        (act_end m (x.on_received m.world.registry) a)
