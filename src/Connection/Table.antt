-- ===== src/Connection/Table.antt =====
-- The response callbacks of connection.h and connection.cpp as what waits for which uid: the
-- source's map is sorted by the uids, the model's list is in the order of its changes, and neither
-- order matters.
use mathlib.Core.Quot
use mathlib.Core.Quot.{Quot, Quot-set}
use lnetlib.Base.{
  ℕ, ◌≡◌, ◌≢◌, refl, sym, ap, ◌∙◌, List, [], ◌∷◌, none, arith, ◌==◌, if◌then◌else◌, Option-cases,
  inl, inr,
}
use lnetlib.Bytes.{Endian}
use lnetlib.Streambuf.{Streambuf}
use lnetlib.Connection.State.{received, called}
use lnetlib.Connection.Sending.{insert}
use lnetlib.Connection.Receiving.{find, erase}
use lnetlib.Connection.Callbacks.{
  find-insert, find-erase, find-erase_ne, HasUniqueKeys, insert-HasUniqueKeys, erase-HasUniqueKeys,
}
use lnetlib.Connection.Frames.{Message, delivery_of, route_one, routed}

module _ {K : Type 0} where
  -- The same callbacks wait for the same uids.
  abbrev pub SameCallbacks : List (ℕ × K) → List (ℕ × K) → Type 0
  SameCallbacks ks ls = (u : ℕ) → find u ks ≡ find u ls

  pub find-erase_lem :
      (u v : ℕ) (ks : List (ℕ × K))
      → HasUniqueKeys ks
      → find v (erase u ks) ≡ (if u == v then none else find v ks)
  find-erase_lem u v ks h = ground (arith, find-erase u ks h, find-erase_ne u v ks)

  pub erase-SameCallbacks :
      (u : ℕ) (ks ls : List (ℕ × K))
      → HasUniqueKeys ks
      → HasUniqueKeys ls
      → SameCallbacks ks ls
      → SameCallbacks (erase u ks) (erase u ls)
  erase-SameCallbacks u ks ls h i same v =
      rw (find-erase_lem u v ks h, find-erase_lem u v ls i, same v) refl

  pub insert-SameCallbacks :
      (u : ℕ) (cb : K) (ks ls : List (ℕ × K))
      → SameCallbacks ks ls
      → SameCallbacks (insert u cb ks) (insert u cb ls)
  insert-SameCallbacks u cb ks ls same v =
      rw (find-insert u v cb ks, find-insert u v cb ls, same v) refl

  insert_swap :
      (u v : ℕ) (cb db : K) (ks : List (ℕ × K))
      → u ≢ v
      → SameCallbacks (insert u cb (insert v db ks)) (insert v db (insert u cb ks))
  insert_swap u v cb db ks ne w =
      rw
        (
          find-insert u w cb (insert v db ks),
          find-insert v w db ks,
          find-insert v w db (insert u cb ks),
          find-insert u w cb ks,
        )
        (ground arith)

-- The abstract table: lists with one callback for each uid at most, where order is forgotten.
abbrev pub Entries : Type 0 → Type 0
Entries K = (ks : List (ℕ × K)) × HasUniqueKeys ks

abbrev pub Table : Type 0 → Type 0
Table K = Quot {α = Entries K} (λ a b. SameCallbacks a.0 b.0)

module _ {K : Type 0} where
  abbrev pub table : (ks : List (ℕ × K)) → HasUniqueKeys ks → Table K
  table ks h = Quot.mk (ks, h)

  unfoldable pub remember : ℕ → K → Table K → Table K
  remember u cb =
      Quot.lift Quot-set (λ a. table (insert u cb a.0) (insert-HasUniqueKeys u cb a.0 a.1))
        (λ a b same. Quot.sound (insert-SameCallbacks u cb a.0 b.0 same))

  unfoldable pub forget : ℕ → Table K → Table K
  forget u =
      Quot.lift Quot-set (λ a. table (erase u a.0) (erase-HasUniqueKeys u a.0 a.1))
        (λ a b same. Quot.sound (erase-SameCallbacks u a.0 b.0 a.1 b.1 same))

  pub remember_swap :
      (u v : ℕ) (cb db : K) (t : Table K)
      → u ≢ v
      → remember u cb (remember v db t) ≡ remember v db (remember u cb t)
  unfolding remember
  remember_swap u v cb db t ne =
      Quot.ind {β = λ t. remember u cb (remember v db t) ≡ remember v db (remember u cb t)}
        (λ t. Quot-set _ _) (λ a. Quot.sound (insert_swap u v cb db a.0 ne)) t

module _ (B : Streambuf) (e : Endian) {K : Type 0} where
  pub routed-SameCallbacks :
      (ks ls : List (ℕ × K)) (ms : List Message)
      → HasUniqueKeys ks
      → HasUniqueKeys ls
      → SameCallbacks ks ls
      → routed B e ks ms ≡ routed B e ls ms
  routed-SameCallbacks ks ls [] h i same = refl
  routed-SameCallbacks ks ls (m ∷ ms) h i same = elim (Option-cases (find m.uid ks)) [
    | inl none_waits ↦
        rw (routed, route_one, none_waits, sym (same m.uid) ∙ none_waits)
          (ap (◌∷◌ (received (delivery_of B e m))) (routed-SameCallbacks ks ls ms h i same))
    | inr (cb, waits) ↦
        rw (routed, route_one, waits, sym (same m.uid) ∙ waits)
          (ap (◌∷◌ (called cb (delivery_of B e m))) (
            routed-SameCallbacks (erase m.uid ks) (erase m.uid ls) ms
              (erase-HasUniqueKeys m.uid ks h) (erase-HasUniqueKeys m.uid ls i)
              (erase-SameCallbacks m.uid ks ls h i same)))
  ]
