-- ===== src/Signal/Nesting.antt =====
-- Emission through connected signals (signal::operator() of lsignal.h), and its fuel.
use mathlib.Core.Path.{subst}
use lnetlib.Base.{
  ℕ, zero, suc, ◌<◌, ◌≤◌, ◌≡◌, refl, sym, ap, ◌∙◌, true, false, List, [], ◌∷◌, Option, some, ◌>>=◌,
  ◌==◌, if◌then◌else◌, Bool-cases, Option-cases, inl, inr, All, arith,
}
use lnetlib.Signal.State.{Signal, Store, put}
use lnetlib.Signal.Emitting.{call_joints, emit_all, emit_locked, release, emit}
use lnetlib.Signal.Laws.{update_same, update_other, IsFree, IsFree-lock}
use lnetlib.Signal.Calls.{on_world, heard, after_calls, answer, call_joints-heard, emitting}
use lnetlib.Signal.Ranks.{
  links, is_alive, is_held, All-map, dead, ==→≡, Ranked, FreeBelow, SameSignals, Ranked-links,
  emitting-at,
}

module _ {A R W : Type 0} (f : ℕ → A → W → R × W) (default : R) (rank : ℕ → ℕ) where
  -- An emission that returns, and leaves all signals as they were.
  abbrev pub Returns : Store W → Option (R × Store W) → Type 0
  Returns m o = (r : R) × (m' : Store W) × (o ≡ some (r, m')) × SameSignals m m'

  abbrev Emits : ℕ → Type 0
  Emits n =
      (g : ℕ) (a : A) (m : Store W)
      → rank g < n
      → is_alive (m.signals g) ≡ true
      → Ranked rank m
      → FreeBelow rank (suc (rank g)) m
      → Returns m (emit (on_world f) default n g a m)

  -- The signals of a list, one after the other.
  emit_all-SameSignals :
      (n r : ℕ)
      → Emits n
      → r ≤ n
      → (ks : List ℕ) (a : A) (m : Store W)
      → All (λ k. (rank k < r) × (is_alive (m.signals k) ≡ true)) ks
      → Ranked rank m
      → FreeBelow rank r m
      → (m' : Store W) × (emit_all (on_world f) default (emit (on_world f) default n) ks a m
          ≡ some m')
        × SameSignals m m'
  emit_all-SameSignals n r each fits [] a m below ranked free = (m, refl, λ i. refl)
  emit_all-SameSignals n r each fits (k ∷ ks) a m below ranked free =
      let one =
        each k a m (omega (arith, below.0.0)) below.0.1 ranked
          (λ i h. free i (omega (arith, below.0.0, h))) in
      let m' = one.1 in
      let same = one.3 in
      let rest =
        emit_all-SameSignals n r each fits ks a m'
          (All-map ks (λ j p. (p.0, ap is_alive (same j) ∙ p.1)) below.1)
          (Ranked-links rank m m' (λ i. ap links (same i)) (λ i. ap is_alive (same i)) ranked)
          (λ i h. ap is_held (same i) ∙ free i h) in
      (
        rest.0,
        ap (λ o. o >>= λ p. emit_all (on_world f) default (emit (on_world f) default n) ks a p.1)
              one.2
            ∙ rest.1,
        λ i. rest.2 i ∙ same i,
      )

  -- What is emitted under the mutex.
  emit_locked-SameSignals :
      (n g : ℕ)
      → Emits n
      → rank g ≤ n
      → (x : Signal) (a : A) (m : Store W)
      → All (λ k. (rank k < rank g) × (is_alive (m.signals k) ≡ true)) x.signals
      → Ranked rank m
      → FreeBelow rank (rank g) m
      → Returns m (emit_locked (on_world f) default (emit (on_world f) default n) g x a m)
  emit_locked-SameSignals n g each fits x a m below ranked free =
      let e = emit (on_world f) default n in
      let all = emit_all-SameSignals n (rank g) each fits x.signals a m below ranked free in
      let m₁ = all.0 in
      elim (Bool-cases x.locked) [
        | inl h ↦ (
          default,
          m,
          ap
              (λ b.
                if b
                then some (default, m)
                else (emit_all (on_world f) default e x.signals a m
                    >>= call_joints (on_world f) default x.callbacks a))
              h,
          λ i. refl,
        )
        | inr h ↦ (
          answer f default m₁.flags x.callbacks a m₁.world,
          record m₁ { world = after_calls f a (heard m₁.flags x.callbacks) m₁.world },
          ap
                (λ b.
                  if b
                  then some (default, m)
                  else (emit_all (on_world f) default e x.signals a m
                      >>= call_joints (on_world f) default x.callbacks a))
                h
              ∙ ap (λ o. o >>= call_joints (on_world f) default x.callbacks a) all.1
              ∙ call_joints-heard f default x.callbacks a m₁,
          all.2,
        )
      ]

  -- Giving the mutex back.
  release-SameSignals :
      (g : ℕ) (x : Signal) (r : R) (m m' : Store W)
      → IsFree m g x
      → SameSignals (emitting g x m) m'
      → Returns m (release g (r, m'))
  release-SameSignals g x r m m' h same =
      let back = record x { held = false } in
      let held : m'.signals g ≡ some (record x { held = true }) =
        same g ∙ update_same g (some (record x { held = true })) m.signals in
      (
        r,
        put g back m',
        ap (λ o. o >>= λ y. some (r, put g (record y { held = false }) m')) held,
        λ i. elim (Bool-cases (i == g)) [
          | inl e ↦
              ap (λ b. if b then some back else m'.signals i) e
              ∙ ap (λ b. some (record x { held = b })) (sym h.free)
              ∙ sym h.alive
              ∙ ap m.signals (sym (==→≡ i g e))
          | inr e ↦
              ap (λ b. if b then some back else m'.signals i) e
              ∙ same i
              ∙ ap (λ b. if b then some (record x { held = true }) else m.signals i) e
        ],
      )

  emit_step : (n : ℕ) → Emits n → Emits (suc n)
  unfolding emit
  emit_step n each g a m fits alive ranked free = elim (Option-cases (m.signals g)) [
    | inl none_there ↦ absurd (dead (sym (ap is_alive none_there) ∙ alive))
    | inr (x, there) ↦
        let own : IsFree m g x = record {
          alive = there;
          free = sym (ap is_held there) ∙ free g (omega arith);
        } in
        let m₁ = emitting g x m in
        let still = emitting-at rank is_alive g x m there refl in
        let below =
          All-map x.signals (λ k p. (p.0, still k ∙ p.1))
            (subst (All (λ k. (rank k < rank g) × (is_alive (m.signals k) ≡ true))) (ap links there)
              (ranked g)) in
        let inside =
          emit_locked-SameSignals n g each (omega (arith, fits)) x a m₁ below
            (Ranked-links rank m m₁ (emitting-at rank links g x m there refl) still ranked)
            (λ i h.
              ap is_held (
                update_other g i (some (record x { held = true })) m.signals
                  (λ e. omega (arith, h, ap rank e)))
              ∙ free i (omega (arith, h))) in
        let after = release-SameSignals g x inside.0 m inside.1 own inside.3 in
        (
          after.0,
          after.1,
          ap
                (λ o. o >>= λ y.
                  emit_locked (on_world f) default (emit (on_world f) default n) g y a
                    (emitting g y m)
                  >>= release g)
                (IsFree-lock m g x own)
              ∙ ap (λ o. o >>= release g) inside.2
              ∙ after.2,
          after.3,
        )
  ]

  emits : (n : ℕ) → Emits n
  emits zero g a m fits alive ranked free = absurd (omega (arith, fits))
  emits (suc n) g a m fits alive ranked free = emit_step n (emits n) g a m fits alive ranked free

  -- Signals that emit each other without a cycle, as a rank tells that falls from each signal to
  -- those that it emits, all of them alive, with callbacks that work on the world alone: an
  -- emission returns, with more fuel than the rank of its signal, if no mutex of a signal up to
  -- that rank is held, and leaves every signal as it was, with its mutex given back.
  pub emit-SameSignals :
      (n g : ℕ) (a : A) (m : Store W)
      → rank g < n
      → is_alive (m.signals g) ≡ true
      → Ranked rank m
      → FreeBelow rank (suc (rank g)) m
      → (r : R) × (m' : Store W) × (emit (on_world f) default n g a m ≡ some (r, m'))
        × SameSignals m m'
  emit-SameSignals n g a m fits alive ranked free = emits n g a m fits alive ranked free
