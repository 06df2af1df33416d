-- ===== src/Server/Turns.antt =====
-- One turn in the life of a connection of a server that is alive (server.cpp and connection.cpp).
use lnetlib.Base.{
  ℕ, ◌+◌, ◌-◌, ◌≡◌, refl, ◌∙◌, true, false, Option, none, some, arith, ◌==◌, ltb, if◌then◌else◌,
  ◌⊎◌, inl, inr, Bool-cases,
}
use lnetlib.Signal.State.{Store}
use lnetlib.Connection.Owners.{Shared, with_registry, pointers}
use lnetlib.Connection.Attaching.{IsAttached, same_signals, destroy_lem}
use lnetlib.Server.State
use lnetlib.Server.State.{Server, Program, record_effect}
use lnetlib.Server.Registry.{IsRegistered}
use lnetlib.Server.Hosting.{IsIdle}
use lnetlib.Server.Owners.{
  count, server_slots, forgotten, forgotten-IsRegistered, count-remove, closed-forgotten,
  closing-forgotten,
}
use lnetlib.Server.Custody.{
  leaves, quits, copies, drops, slots, drop_kept, with_kept, happen, Custody, is_owned, fate,
  custody, IsAlive, IsGone, IsSound,
}

module _ (conn : ℕ) where
  -- Both sides fail, or both go on alike.
  abbrev pub Alike : Option (Store (Shared Server)) → Option Custody → Type 0
  Alike r f =
      ((r ≡ none) × (f ≡ none))
      ⊎ ((m : Store (Shared Server)) × (r ≡ some m) × (f ≡ some (custody conn m)) × IsSound conn m)

module _ (p : Program) (conn : ℕ) (idle : IsIdle p) where
  -- The server forgets the connection.
  forgotten-Alike :
      (m m' : Store (Shared Server)) (r : Option (Store (Shared Server)))
      → IsSound conn m
      → r ≡ (if m.world.kept + m.world.passed == 0 then none else some m')
      → (m'.world.kept ≡ m.world.kept) × (m'.world.passed ≡ m.world.passed)
      → IsRegistered m'.world.registry
      → count conn m'.world.registry.connections ≡ 0
      → IsAttached m'
      → Alike conn r
          (if ltb 0 m.world.kept then some (record (custody conn m) { listed = false }) else none)
  forgotten-Alike m m' r s done (kept, passed) v zero a = elim (Bool-cases (ltb 0 m.world.kept)) [
    | inl held ↦
        let some_left : (m.world.kept + m.world.passed == 0) ≡ false = ground arith in
        inr (
          m',
          rw some_left at done,
          rw (held, zero, kept) refl,
          record {
            registered = v;
            settled = passed ∙ s.settled;
            life_or_death = inl (record { attached = a; owned = ground (arith, kept) });
          },
        )
    | inr unheld ↦
        let last : (m.world.kept + m.world.passed == 0) ≡ true = ground (arith, s.settled) in
        inl (rw last at done, rw unheld refl)
  ]

  pub leaves-Alike :
      (m : Store (Shared Server))
      → IsSound conn m
      → IsAlive conn m
      → Alike conn (happen p conn leaves m) (fate leaves (custody conn m))
  unfolding happen
  leaves-Alike m s l =
      let t = m.world.registry in
      forgotten-Alike m (with_registry (forgotten conn t) m) _ s
        (closed-forgotten p conn idle m l.attached s.registered) (refl, refl)
        (forgotten-IsRegistered conn t s.registered)
        (count-remove conn t.connections s.registered.distinct) (same_signals m _ l.attached)

  pub quits-Alike :
      (m : Store (Shared Server))
      → IsSound conn m
      → IsAlive conn m
      → Alike conn (happen p conn quits m) (fate quits (custody conn m))
  unfolding happen
  quits-Alike m s l =
      let t = record_effect (State.received conn) m.world.registry in
      let v = s.registered in
      forgotten-Alike m
        (record m { world = record m.world { is_open = false; registry = forgotten conn t } }) _ s
        (closing-forgotten p conn idle m l.attached v) (refl, refl)
        (forgotten-IsRegistered conn t
          (record { paired = v.paired; distinct = v.distinct; free = v.free }))
        (count-remove conn t.connections v.distinct) (same_signals m _ l.attached)

  pub emission-Alike :
      (m : Store (Shared Server))
      → IsSound conn m
      → IsAlive conn m
      → (r : Option (Store (Shared Server))) (t : Server) → r ≡ some (with_registry t m)
      → IsRegistered t
      → t.connections ≡ m.world.registry.connections
      → Alike conn r (if is_owned (custody conn m) then some (custody conn m) else none)
  emission-Alike m s l r t done v same =
      let there : is_owned (custody conn m) ≡ true = ground (arith, l.owned) in
      inr (
        with_registry t m,
        done,
        rw (there, same) refl,
        record {
          registered = v;
          settled = s.settled;
          life_or_death =
              inl (record { attached = same_signals m _ l.attached; owned = rw same l.owned });
        },
      )

  pointers_lem :
      (m : Store (Shared Server))
      → IsRegistered m.world.registry
      → m.world.passed ≡ 0
      → pointers (slots p conn) m.world
        ≡ m.world.kept
          + (count conn m.world.registry.connections + count conn m.world.registry.connections)
  unfolding pointers server_slots
  pointers_lem m v settled = rw (settled, v.paired) (omega arith)

  pub no_pointers :
      (m : Store (Shared Server))
      → IsSound conn m
      → IsGone conn m
      → (pointers (slots p conn) m.world == 0) ≡ true
  no_pointers m s g = ground (arith, pointers_lem m s.registered s.settled, g.unkept, g.unlisted)

  pub copies-Alike :
      (m : Store (Shared Server))
      → IsSound conn m
      → IsAlive conn m
      → Alike conn (happen p conn copies m) (fate copies (custody conn m))
  unfolding happen
  copies-Alike m s l =
      let there : is_owned (custody conn m) ≡ true = ground (arith, l.owned) in
      let held : (pointers (slots p conn) m.world == 0) ≡ false =
        ground (arith, pointers_lem m s.registered s.settled, l.owned) in
      inr (
        with_kept p conn (m.world.kept + 1) m,
        rw held refl,
        rw there refl,
        record {
          registered = s.registered;
          settled = s.settled;
          life_or_death =
              inl (record { attached = same_signals m _ l.attached; owned = omega arith });
        },
      )

  -- Letting go of a pointer that the program has.
  dropped-Alike :
      (m : Store (Shared Server))
      → IsRegistered m.world.registry
      → m.world.passed ≡ 0
      → IsAttached m
      → Alike conn (drop_kept p conn m) (some (custody conn m))
  dropped-Alike m v settled a =
      let sum : pointers (slots p conn) m.world
          ≡ m.world.kept
            + (count conn m.world.registry.connections + count conn m.world.registry.connections) =
        pointers_lem m v settled in
      elim (Bool-cases (pointers (slots p conn) m.world == 0)) [
        | inl last ↦
            let (n, done, s0, s1, s2, same) = destroy_lem m a in
            inr (
              n,
              rw last done,
              rw same refl,
              record {
                registered = rw same v;
                settled = rw same settled;
                life_or_death = inr (record {
                  signal_0 = s0;
                  signal_1 = s1;
                  signal_2 = s2;
                  unkept = rw same (ground arith);
                  unlisted = rw same (ground arith);
                });
              },
            )
        | inr some_left ↦ inr (
          m,
          rw some_left refl,
          refl,
          record {
            registered = v;
            settled = settled;
            life_or_death = inl (record { attached = a; owned = ground arith });
          },
        )
      ]

  pub drops-Alike :
      (m : Store (Shared Server))
      → IsSound conn m
      → IsAlive conn m
      → Alike conn (happen p conn drops m) (fate drops (custody conn m))
  unfolding happen
  drops-Alike m s l = elim (Bool-cases (m.world.kept == 0)) [
    | inl z ↦ let e : m.world.kept ≡ 0 = ground arith in inr (m, rw z refl, rw e refl, s)
    | inr more ↦ rw more (
        dropped-Alike (with_kept p conn (m.world.kept - 1) m) s.registered s.settled
          (same_signals m _ l.attached))
  ]
