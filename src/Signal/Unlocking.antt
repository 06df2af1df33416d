-- ===== src/Signal/Unlocking.antt =====
-- The end of an emission with an aggregate (the second signal::operator() of lsignal.h), which
-- gives the mutex back before it calls the aggregate, and whose lock_guard gives it back once more.
use lnetlib.Base.{
  ℕ, ◌≡◌, refl, sym, ap, ◌∙◌, true, false, List, Option, none, some, ◌>>=◌, if◌then◌else◌,
  Option-cases, some_inj, inl, inr,
}
use lnetlib.Signal.State.{Signal, Store, put, lock}
use lnetlib.Signal.Emitting.{Program, release, emit}
use lnetlib.Signal.Aggregating.{collect, collect_locked}
use lnetlib.Signal.Laws.{update_same}

-- `none`: the mutex is not held, and giving it back has no defined behaviour.
unfoldable pub unlock : {W : Type 0} → ℕ → Store W → Option (Store W)
unlock g m =
    m.signals g >>= λ x. if x.held then some (put g (record x { held = false }) m) else none

module _ {A R T W : Type 0} (p : Program A R W) (default : R) where
  -- What the aggregate is given has been collected, and the mutex is free again, when it is called.
  unfoldable pub aggregate :
      (List R → Store W → Option (T × Store W)) → ℕ → ℕ → A → Store W → Option (T × Store W)
  aggregate agg n g a m = do
    (result, m1) ← collect p default n g a m
    (answer, m2) ← agg result m1
    m3 ← unlock g m2
    some (answer, m3)

-- The mutex of the signal is free.
abbrev pub Unheld : {W : Type 0} → ℕ → Store W → Type 0
Unheld g m = (x : Signal) × (m.signals g ≡ some x) × (x.held ≡ false)

release-Unheld :
    {R W : Type 0} (g : ℕ) (r : List R) (m : Store W) (r' : List R) (m' : Store W)
    → release g (r, m) ≡ some (r', m')
    → Unheld g m'
release-Unheld g r m r' m' h = elim (Option-cases (m.signals g)) [
  | inl e ↦ cc (rw e at h)
  | inr (x, e) ↦
      let same = ap (λ q. q.1) (some_inj (rw e at h)) in
      let back : Signal = record x { held = false } in
      (back, ap (λ n. n.signals g) (sym same) ∙ update_same g (some back) m.signals, refl)
]

unlock-Unheld : {W : Type 0} (g : ℕ) (m : Store W) → Unheld g m → unlock g m ≡ none
unfolding unlock
unlock-Unheld g m (x, there, free) = rw (there, free) refl

module _ {A R W : Type 0} (p : Program A R W) (default : R) where
  collect-Unheld :
      (n g : ℕ) (a : A) (m : Store W) (r : List R) (m' : Store W)
      → collect p default n g a m ≡ some (r, m')
      → Unheld g m'
  unfolding collect
  collect-Unheld n g a m r m' h = elim (Option-cases (lock g m)) [
    | inl e ↦ cc (rw e at h)
    | inr (x, e) ↦
        elim (Option-cases
          (collect_locked p default (emit p default n) x a (put g (record x { held = true }) m))) [
            | inl e1 ↦ cc (rw (e, e1) at h)
            | inr ((r1, m1), e1) ↦ release-Unheld g r1 m1 r m' (rw (e, e1) at h)
          ]
  ]

  -- Every emission with an aggregate has no defined behaviour, on any signal and with any
  -- callbacks, if the aggregate does not itself leave the mutex of the signal held: the mutex is
  -- given back twice.
  pub aggregate-undefined :
      {T : Type 0} (agg : List R → Store W → Option (T × Store W)) (n g : ℕ) (a : A) (m : Store W)
      → ((r : List R) (m1 m2 : Store W) (answer : T)
          → Unheld g m1
          → agg r m1 ≡ some (answer, m2)
          → Unheld g m2)
      → aggregate p default agg n g a m ≡ none
  unfolding aggregate
  aggregate-undefined agg n g a m leaves = elim (Option-cases (collect p default n g a m)) [
    | inl e ↦ rw e refl
    | inr ((r, m1), e) ↦ elim (Option-cases (agg r m1)) [
      | inl e1 ↦ rw (e, e1) refl
      | inr ((answer, m2), e1) ↦
          let free = leaves r m1 m2 answer (collect-Unheld n g a m r m1 e) e1 in
          rw (e, e1, unlock-Unheld g m2 free) refl
    ]
  ]
