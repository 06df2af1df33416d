-- ===== src/Connection/Callbacks.antt =====
-- The table of response callbacks of connection.h and connection.cpp.
use lnetlib.Base.{ℕ, ◌≡◌, ◌≢◌, refl, List, [], ◌∷◌, none, some, arith, ◌==◌, if◌then◌else◌}
use lnetlib.Connection.Sending.{insert}
use lnetlib.Connection.Receiving.{find, erase}

module _ {K : Type 0} where
  pub find-insert :
      (u v : ℕ) (cb : K) (ks : List (ℕ × K))
      → find v (insert u cb ks) ≡ (if u == v then some cb else find v ks)
  unfolding find insert
  find-insert u v cb [] = refl
  find-insert u v cb ((i, k) ∷ ks) = ground (arith, find-insert u v cb ks)

  pub find-erase_ne : (u v : ℕ) (ks : List (ℕ × K)) → u ≢ v → find v (erase u ks) ≡ find v ks
  unfolding find erase
  find-erase_ne u v [] h = refl
  find-erase_ne u v ((i, k) ∷ ks) h = ground (arith, find-erase_ne u v ks h)

  -- No callback of the table waits for `u`.
  abbrev pub Absent : ℕ → List (ℕ × K) → Type 0
  Absent u [] = Unit {0}
  Absent u ((i, k) ∷ ks) = (i ≢ u) × Absent u ks

  -- At most one callback waits for each uid.
  abbrev pub HasUniqueKeys : List (ℕ × K) → Type 0
  HasUniqueKeys [] = Unit {0}
  HasUniqueKeys ((i, k) ∷ ks) = Absent i ks × HasUniqueKeys ks

  find-Absent : (u : ℕ) (ks : List (ℕ × K)) → Absent u ks → find u ks ≡ none
  unfolding find
  find-Absent u [] h = refl
  find-Absent u ((i, k) ∷ ks) h = ground (arith, find-Absent u ks h.1)

  insert-Absent :
      (u v : ℕ) (cb : K) (ks : List (ℕ × K)) → u ≢ v → Absent v ks → Absent v (insert u cb ks)
  unfolding insert
  insert-Absent u v cb [] h a = (h, tt)
  insert-Absent u v cb ((i, k) ∷ ks) h a = ground (arith, insert-Absent u v cb ks h a.1)

  pub insert-HasUniqueKeys :
      (u : ℕ) (cb : K) (ks : List (ℕ × K)) → HasUniqueKeys ks → HasUniqueKeys (insert u cb ks)
  unfolding insert
  insert-HasUniqueKeys u cb [] h = (tt, tt)
  insert-HasUniqueKeys u cb ((i, k) ∷ ks) h =
      ground (arith, insert-HasUniqueKeys u cb ks h.1, insert-Absent u i cb ks)

  erase-Absent : (u v : ℕ) (ks : List (ℕ × K)) → Absent v ks → Absent v (erase u ks)
  unfolding erase
  erase-Absent u v [] h = tt
  erase-Absent u v ((i, k) ∷ ks) h = ground (arith, erase-Absent u v ks h.1)

  pub erase-HasUniqueKeys :
      (u : ℕ) (ks : List (ℕ × K)) → HasUniqueKeys ks → HasUniqueKeys (erase u ks)
  unfolding erase
  erase-HasUniqueKeys u [] h = tt
  erase-HasUniqueKeys u ((i, k) ∷ ks) h =
      ground (arith, erase-HasUniqueKeys u ks h.1, erase-Absent u i ks h.0)

  pub find-erase : (u : ℕ) (ks : List (ℕ × K)) → HasUniqueKeys ks → find u (erase u ks) ≡ none
  unfolding find erase
  find-erase u [] h = refl
  find-erase u ((i, k) ∷ ks) h = ground (arith, find-erase u ks h.1, find-Absent u ks)
