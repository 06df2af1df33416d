-- ===== src/Signal/Aggregating.antt =====
-- Emission with an aggregate (the second signal::operator() of lsignal.h), up to the call of the
-- aggregate. The source gives the mutex back before that call, and its lock_guard gives it back
-- once more afterwards: that is in Unlocking.
use lnetlib.Base.{
  ℕ, ◌≡◌, refl, sym, ap, ◌∙◌, true, false, List, [], ◌∷◌, Option, some, ◌>>=◌, if◌then◌else◌,
  Bool-cases, inl, inr,
}
use lnetlib.Signal.State.{Joint, Signal, Store, put, lock}
use lnetlib.Signal.Emitting.{Program, emit, emit_all, release}
use lnetlib.Signal.Laws.{update_same, IsFree, IsFree-lock}
use lnetlib.Signal.Calls.{on_world, heard, after_calls, emitting}

module _ {A R W : Type 0} (p : Program A R W) where
  -- The results of the joints that are not locked, in the order of their connection.
  unfoldable pub collect_joints : List Joint → A → Store W → Option (List R × Store W)
  collect_joints [] a m = some ([], m)
  collect_joints (j ∷ js) a m =
      if m.flags j.connection
      then collect_joints js a m
      else (p j.callback a m >>= λ r. collect_joints js a r.1 >>= λ q. some (r.0 ∷ q.0, q.1))

module _ {A R W : Type 0} (p : Program A R W) (default : R) where
  -- `e` emits the signals that are connected.
  abbrev pub collect_locked :
      (ℕ → A → Store W → Option (R × Store W)) → Signal → A → Store W → Option (List R × Store W)
  collect_locked e x a m =
      if x.locked
      then some ([], m)
      else (emit_all p default e x.signals a m >>= collect_joints p x.callbacks a)

  -- What the aggregate is given, and the store then. `n`: the fuel for the signals that are
  -- connected.
  unfoldable pub collect : ℕ → ℕ → A → Store W → Option (List R × Store W)
  collect n g a m = do
    x ← lock g m
    r ← collect_locked (emit p default n) x a (put g (record x { held = true }) m)
    release g r

module _ {A R W : Type 0} (f : ℕ → A → W → R × W) where
  -- What the callbacks return, one after the other.
  abbrev pub answers : A → List ℕ → W → List R
  answers a [] w = []
  answers a (k ∷ ks) w = (f k a w).0 ∷ answers a ks (f k a w).1

  collect_joints-heard :
      (js : List Joint) (a : A) (m : Store W)
      → collect_joints (on_world f) js a m
        ≡ some (
          answers a (heard m.flags js) m.world,
          record m { world = after_calls f a (heard m.flags js) m.world },
        )
  unfolding collect_joints
  collect_joints-heard [] a m = refl
  collect_joints-heard (j ∷ js) a m = elim (Bool-cases (m.flags j.connection)) [
    | inl e ↦ rw e (collect_joints-heard js a m)
    | inr e ↦
        let rest = collect_joints-heard js a (record m { world = (f j.callback a m.world).1 }) in
        rw e (ap (λ o. o >>= λ q. some ((f j.callback a m.world).0 ∷ q.0, q.1)) rest)
  ]

  -- An emission with an aggregate of a signal that is not locked, whose mutex is free and which has
  -- no signals connected, with callbacks that work on the world alone: the aggregate is given the
  -- results of the callbacks whose connection is not locked, one for each and in the order of their
  -- connection, and the signal is as it was.
  pub collect-heard :
      (default : R) (n g : ℕ) (a : A) (x : Signal) (m : Store W)
      → IsFree m g x
      → x.locked ≡ false
      → x.signals ≡ []
      → (m' : Store W) × (collect (on_world f) default n g a m
          ≡ some (answers a (heard m.flags x.callbacks) m.world, m'))
        × (m'.world ≡ after_calls f a (heard m.flags x.callbacks) m.world)
        × (m'.signals g ≡ some x)
  unfolding collect
  collect-heard default n g a x m h unlocked flat =
      let e = emit (on_world f) default n in
      let r = answers a (heard m.flags x.callbacks) m.world in
      let m₁ = emitting g x m in
      let m₂ = record m₁ { world = after_calls f a (heard m.flags x.callbacks) m.world } in
      let back = record x { held = false } in
      let go = collect_joints (on_world f) x.callbacks a in
      (
        put g back m₂,
        ap
              (λ o.
                o >>= λ y. collect_locked (on_world f) default e y a (emitting g y m) >>= release g)
              (IsFree-lock m g x h)
            ∙ ap
                (λ b.
                  (if b
                    then some ([], m₁)
                    else (emit_all (on_world f) default e x.signals a m₁ >>= go))
                  >>= release g)
                unlocked
            ∙ ap (λ ks. emit_all (on_world f) default e ks a m₁ >>= go >>= release g) flat
            ∙ ap (λ o. o >>= release g) (collect_joints-heard x.callbacks a m₁)
            ∙ ap (λ o. o >>= λ y. some (r, put g (record y { held = false }) m₂))
                (update_same g (some (record x { held = true })) m.signals),
        refl,
        update_same g (some back) m₂.signals ∙ ap (λ b. some (record x { held = b })) (sym h.free),
      )
