-- ===== src/Signal/Calls.antt =====
-- Which callbacks an emission calls (signal::operator() of lsignal.h).
use lnetlib.Base.{
  ℕ, zero, suc, ◌≡◌, refl, ap, ◌∙◌, Bool, true, false, List, [], ◌∷◌, none, some, ◌>>=◌,
  if◌then◌else◌, Bool-cases, inl, inr,
}
use lnetlib.Signal.State.{Joint, Signal, Connection, Store, put, unheld, lock}
use lnetlib.Signal.Connecting.{disconnect, destroy_connection, erase_joint}
use lnetlib.Signal.Emitting.{Program, call_joint, call_joints, emit_all, emit_locked, release, emit}
use lnetlib.Signal.Laws.{update_same, IsFree, IsFree-lock}

-- The callbacks whose connection is not locked, in the order of their connection.
abbrev pub heard : (ℕ → Bool) → List Joint → List ℕ
heard flags [] = []
heard flags (j ∷ js) = if flags j.connection then heard flags js else j.callback ∷ heard flags js

module _ {W : Type 0} where
  -- The store while a signal is being emitted.
  abbrev pub emitting : ℕ → Signal → Store W → Store W
  emitting g x m = put g (record x { held = true }) m

  disconnect_waiting :
      (g : ℕ) (c : Connection) (m : Store W) → lock g m ≡ none → disconnect g c m ≡ none
  unfolding disconnect destroy_connection
  disconnect_waiting g c m h = ap (λ o. o >>= λ x. some (erase_joint g c.data_ x m)) h

module _ {A R W : Type 0} where
  -- Callbacks that work on the world, and leave signals, slots and connections alone.
  abbrev pub on_world : (ℕ → A → W → R × W) → Program A R W
  on_world f callback a m =
      some ((f callback a m.world).0, record m { world = (f callback a m.world).1 })

  abbrev pub after_calls : (ℕ → A → W → R × W) → A → List ℕ → W → W
  after_calls f a [] w = w
  after_calls f a (k ∷ ks) w = after_calls f a ks (f k a w).1

  -- The result: what the callback of the last joint returns, unless it is locked.
  abbrev pub answer : (ℕ → A → W → R × W) → R → (ℕ → Bool) → List Joint → A → W → R
  answer f default flags [] a w = default
  answer f default flags (j ∷ []) a w = if flags j.connection then default else (f j.callback a w).0
  answer f default flags (j ∷ k ∷ js) a w =
      if flags j.connection
      then answer f default flags (k ∷ js) a w
      else answer f default flags (k ∷ js) a (f j.callback a w).1

  pub call_joints-heard :
      (f : ℕ → A → W → R × W) (default : R) (js : List Joint) (a : A) (m : Store W)
      → call_joints (on_world f) default js a m
        ≡ some (
          answer f default m.flags js a m.world,
          record m { world = after_calls f a (heard m.flags js) m.world },
        )
  unfolding call_joints call_joint
  call_joints-heard f default [] a m = refl
  call_joints-heard f default (j ∷ []) a m = elim (Bool-cases (m.flags j.connection)) [
    | inl e ↦ rw e refl
    | inr e ↦ rw e refl
  ]
  call_joints-heard f default (j ∷ k ∷ js) a m = elim (Bool-cases (m.flags j.connection)) [
    | inl e ↦ rw e (call_joints-heard f default (k ∷ js) a m)
    | inr e ↦
        rw e
          (call_joints-heard f default (k ∷ js) a (record m { world = (f j.callback a m.world).1 }))
  ]

  emit-call_joints :
      (p : Program A R W) (default : R) (n g : ℕ) (a : A) (x : Signal) (m : Store W)
      → IsFree m g x
      → x.locked ≡ false
      → x.signals ≡ []
      → emit p default (suc n) g a m
        ≡ (call_joints p default x.callbacks a (emitting g x m) >>= release g)
  unfolding emit
  emit-call_joints p default n g a x m h unlocked flat =
      let e = emit p default n in
      let m₁ = emitting g x m in
      ap (λ o. o >>= λ y. emit_locked p default e g y a (emitting g y m) >>= release g)
        (IsFree-lock m g x h)
      ∙ ap
          (λ b.
            (if b
              then some (default, m₁)
              else (emit_all p default e x.signals a m₁ >>= call_joints p default x.callbacks a))
            >>= release g)
          unlocked
      ∙ ap
          (λ gs. emit_all p default e gs a m₁ >>= call_joints p default x.callbacks a >>= release g)
          flat

  emit-zero :
      (p : Program A R W) (default : R) (g : ℕ) (a : A) (m : Store W)
      → emit p default zero g a m ≡ none
  unfolding emit
  emit-zero p default g a m = refl

  call_joints_stuck :
      (p : Program A R W) (default : R) (j : Joint) (js : List Joint) (a : A) (m : Store W)
      → (if m.flags j.connection then some (default, m) else p j.callback a m) ≡ none
      → call_joints p default (j ∷ js) a m ≡ none
  unfolding call_joints call_joint
  call_joints_stuck p default j [] a m h = h
  call_joints_stuck p default j (k ∷ js) a m h =
      ap (λ o. o >>= λ r. call_joints p default (k ∷ js) a r.1) h

  -- A callback that disconnects something from the signal that is calling it never returns: if the
  -- first joint of a signal that is not locked has such a callback, and is not locked either, then
  -- the emission does not return, whatever the fuel. No signals are connected, and the mutex is
  -- free.
  pub emit-disconnect :
      (p : Program A R W) (default : R) (n g : ℕ) (a : A) (x : Signal) (j : Joint) (js : List Joint)
      (c : Connection) (r : R) (m : Store W)
      → IsFree m g x
      → x.locked ≡ false
      → x.signals ≡ []
      → x.callbacks ≡ j ∷ js
      → m.flags j.connection ≡ false
      → ((s : Store W) → p j.callback a s ≡ (disconnect g c s >>= λ s'. some (r, s')))
      → emit p default n g a m ≡ none
  emit-disconnect p default zero g a x j js c r m h unlocked flat first on calls =
      emit-zero p default g a m
  emit-disconnect p default (suc n) g a x j js c r m h unlocked flat first on calls =
      let m₁ = emitting g x m in
      let waits : lock g m₁ ≡ none =
        ap (λ o. o >>= unheld) (update_same g (some (record x { held = true })) m.signals) in
      let stuck =
        ap (λ b. if b then some (default, m₁) else p j.callback a m₁) on
        ∙ calls m₁
        ∙ ap (λ o. o >>= λ s. some (r, s)) (disconnect_waiting g c m₁ waits) in
      emit-call_joints p default n g a x m h unlocked flat
      ∙ ap (λ ks. call_joints p default ks a m₁ >>= release g) first
      ∙ ap (λ o. o >>= release g) (call_joints_stuck p default j js a m₁ stuck)
