-- ===== src/Connection/Writes.antt =====
-- The write side of connection.cpp: the writes among the effects of a connection, and what leaves
-- them alone.
use lnetlib.Base.{
  ℕ, ◌≡◌, refl, ap, ◌∙◌, Bool, false, List, [], ◌∷◌, ◌++◌, append-nil, some, arith, ◌⊎◌, inl, inr,
}
use lnetlib.Streambuf.{Streambuf}
use lnetlib.Connection.State.{
  Package, Effect, async_read, async_write, socket_closed, closed, error, received, called, thrown,
  Connection, Program, check_error, emit_closed, emit_error,
}

module _ {B : Streambuf} {K : Type 0} where
  -- The packages of the writes among the effects.
  abbrev pub writes : List (Effect B K) → List (Package B)
  writes [] = []
  writes (async_write pkg ∷ xs) = pkg ∷ writes xs
  writes (async_read k n ∷ xs) = writes xs
  writes (socket_closed ∷ xs) = writes xs
  writes (closed ∷ xs) = writes xs
  writes (error code ∷ xs) = writes xs
  writes (received d ∷ xs) = writes xs
  writes (called k d ∷ xs) = writes xs
  writes (thrown code ∷ xs) = writes xs

  pub writes-append : (xs ys : List (Effect B K)) → writes (xs ++ ys) ≡ writes xs ++ writes ys
  writes-append [] ys = refl
  writes-append (async_write pkg ∷ xs) ys = ap (◌∷◌ pkg) (writes-append xs ys)
  writes-append (async_read k n ∷ xs) ys = writes-append xs ys
  writes-append (socket_closed ∷ xs) ys = writes-append xs ys
  writes-append (closed ∷ xs) ys = writes-append xs ys
  writes-append (error code ∷ xs) ys = writes-append xs ys
  writes-append (received d ∷ xs) ys = writes-append xs ys
  writes-append (called k d ∷ xs) ys = writes-append xs ys
  writes-append (thrown code ∷ xs) ys = writes-append xs ys

  -- `c'` has the write side of `c`.
  pub record SameWrites (c c' : Connection B K) : Type 0 where
    pub locked : c'.socket_locked ≡ c.socket_locked
    pub packages : c'.packages ≡ c.packages
    pub written : writes c'.trace ≡ writes c.trace

  -- Its slots for `closed` and `error` leave the write side of a connection alone.
  pub record IsQuiet (p : Program B K) : Type 0 where
    pub closed_quiet : (c c' : Connection B K) → p.on_closed c ≡ some c' → SameWrites c c'
    pub error_quiet :
        (code : ℕ) (c c' : Connection B K) → p.on_error code c ≡ some c' → SameWrites c c'

  SameWrites-trans : {a b c : Connection B K} → SameWrites a b → SameWrites b c → SameWrites a c
  SameWrites-trans x y = record {
    locked = y.locked ∙ x.locked;
    packages = y.packages ∙ x.packages;
    written = y.written ∙ x.written;
  }

  emit_closed-SameWrites :
      (p : Program B K)
      → IsQuiet p
      → (c c' : Connection B K) → emit_closed p c ≡ some c'
      → SameWrites c c'
  unfolding emit_closed
  emit_closed-SameWrites p q c c' h =
      SameWrites-trans
        (record { locked = refl; packages = refl; written = simp (writes-append, append-nil) })
        (q.closed_quiet _ c' h)

  emit_error-SameWrites :
      (p : Program B K)
      → IsQuiet p
      → (code : ℕ) (c c' : Connection B K) → emit_error p code c ≡ some c'
      → SameWrites c c'
  unfolding emit_error
  emit_error-SameWrites p q code c c' h =
      SameWrites-trans
        (record { locked = refl; packages = refl; written = simp (writes-append, append-nil) })
        (q.error_quiet code _ c' h)

  -- What an error makes of the connection: nothing, or what one of two signals does.
  pub check_error_cases :
      (p : Program B K) (c c' : Connection B K) (code : ℕ) (go : Bool)
      → check_error p c (some code) ≡ some (go, c')
      → (go ≡ false) × ((c' ≡ c) ⊎ (emit_closed p c ≡ some c') ⊎ (emit_error p code c ≡ some c'))
  unfolding check_error
  check_error_cases p c c' code go h = ground arith

  pub check_error-SameWrites :
      (p : Program B K)
      → IsQuiet p
      → (c c' : Connection B K) (code : ℕ) (go : Bool) → check_error p c (some code) ≡ some (go, c')
      → SameWrites c c'
  check_error-SameWrites p q c c' code go h = elim (check_error_cases p c c' code go h).1 [
    | inl e ↦ rw e (record { locked = refl; packages = refl; written = refl })
    | inr (inl e) ↦ emit_closed-SameWrites p q c c' e
    | inr (inr e) ↦ emit_error-SameWrites p q code c c' e
  ]
