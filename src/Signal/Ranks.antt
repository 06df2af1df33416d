-- ===== src/Signal/Ranks.antt =====
-- Signals that emit each other without a cycle (lsignal.h): ranks, and what an emission in progress
-- leaves of them.
use mathlib.Core.Path.{subst}
use lnetlib.Base.{
  ℕ, ◌<◌, ◌≡◌, sym, ap, ◌∙◌, Bool, true, false, List, [], ◌∷◌, Option, none, some, ◌==◌,
  if◌then◌else◌, Bool-cases, inl, inr, All, arith,
}
use lnetlib.Signal.State.{Signal, Store}
use lnetlib.Signal.Calls.{emitting}

-- The signals that a signal emits first; whether it is alive; whether its mutex is held.
abbrev pub links : Option Signal → List ℕ
links none = []
links (some x) = x.signals

abbrev pub is_alive : Option Signal → Bool
is_alive none = false
is_alive (some x) = true

abbrev pub is_held : Option Signal → Bool
is_held none = false
is_held (some x) = x.held

pub All-map : {P Q : ℕ → Type 0} (ks : List ℕ) → ((k : ℕ) → P k → Q k) → All P ks → All Q ks
All-map [] f h = tt
All-map (k ∷ ks) f h = (f k h.0, All-map ks f h.1)

pub dead : ¬ (false ≡ true)
dead h = ground arith

pub ==→≡ : (a b : ℕ) → (a == b) ≡ true → a ≡ b
==→≡ a b h = ground arith

module _ {W : Type 0} (rank : ℕ → ℕ) where
  -- A signal that another emits is alive and of lower rank, so that none emits itself in the end.
  abbrev pub Ranked : Store W → Type 0
  Ranked m =
      (i : ℕ) → All (λ k. (rank k < rank i) × (is_alive (m.signals k) ≡ true)) (links (m.signals i))

  -- No mutex of a signal below this rank is held.
  abbrev pub FreeBelow : ℕ → Store W → Type 0
  FreeBelow r m = (i : ℕ) → rank i < r → is_held (m.signals i) ≡ false

abbrev pub SameSignals : {W : Type 0} → Store W → Store W → Type 0
SameSignals m m' = (i : ℕ) → m'.signals i ≡ m.signals i

module _ {W : Type 0} (rank : ℕ → ℕ) where
  pub Ranked-links :
      (m m' : Store W)
      → ((i : ℕ) → links (m'.signals i) ≡ links (m.signals i))
      → ((i : ℕ) → is_alive (m'.signals i) ≡ is_alive (m.signals i))
      → Ranked rank m
      → Ranked rank m'
  Ranked-links m m' same alive h i =
      subst (All (λ k. (rank k < rank i) × (is_alive (m'.signals k) ≡ true))) (sym (same i))
        (All-map (links (m.signals i)) (λ k p. (p.0, alive k ∙ p.1)) (h i))

  pub emitting-at :
      {C : Type 0} (f : Option Signal → C) (g : ℕ) (x : Signal) (m : Store W)
      → m.signals g ≡ some x
      → f (some (record x { held = true })) ≡ f (some x)
      → (i : ℕ) → f ((emitting g x m).signals i) ≡ f (m.signals i)
  emitting-at f g x m alive e i = elim (Bool-cases (i == g)) [
    | inl h ↦
        ap (λ b. f (if b then some (record x { held = true }) else m.signals i)) h
        ∙ e
        ∙ ap f (sym alive ∙ ap m.signals (sym (==→≡ i g h)))
    | inr h ↦ ap (λ b. f (if b then some (record x { held = true }) else m.signals i)) h
  ]
