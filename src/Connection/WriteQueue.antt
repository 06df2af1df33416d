-- ===== src/Connection/WriteQueue.antt =====
-- What one call of the dispatch slot or of the write handler of connection.cpp does, on each
-- branch.
use lnetlib.Base.{
  ℕ, ◌≡◌, refl, true, false, List, [], ◌∷◌, ◌++◌, none, some, arith, Option-cases, inl, inr,
}
use lnetlib.Bytes.{Endian}
use lnetlib.Streambuf.{Streambuf}
use lnetlib.Connection.State.{Package, Connection, Program, check_error}
use lnetlib.Connection.Sending.{
  create_package, send_package, write_next, write_handler, dispatch_slot,
}
use lnetlib.Connection.Writes.{
  writes, writes-append, SameWrites, IsQuiet, check_error-SameWrites, check_error_cases,
}

module _ (B : Streambuf) (e : Endian) {K : Type 0} where
  pub dispatch_locked :
      (b : B.Buffer) (c : Connection B K)
      → c.socket_locked ≡ true
      → dispatch_slot B e (some b) c
        ≡ some (record c { packages = c.packages ++ create_package B e b ∷ [] })
  unfolding dispatch_slot
  dispatch_locked b c h = rw h

  pub dispatch_free :
      (b : B.Buffer) (c : Connection B K)
      → c.socket_locked ≡ false
      → dispatch_slot B e (some b) c ≡ some (send_package (create_package B e b) c)
  unfolding dispatch_slot
  dispatch_free b c h = rw h

module _ {B : Streambuf} {K : Type 0} where
  pub send_package-packages :
      (pkg : Package B) (c : Connection B K) → (send_package pkg c).packages ≡ c.packages
  unfolding send_package
  send_package-packages pkg c = refl

  pub send_package-locked :
      (pkg : Package B) (c : Connection B K) → (send_package pkg c).socket_locked ≡ true
  unfolding send_package
  send_package-locked pkg c = refl

  pub write_next_empty :
      (c : Connection B K) → c.packages ≡ [] → write_next c ≡ record c { socket_locked = false }
  unfolding write_next
  write_next_empty c h = ground arith

  pub write_next_more :
      (c : Connection B K) (pkg : Package B) (rest : List (Package B))
      → c.packages ≡ pkg ∷ rest
      → write_next c ≡ send_package pkg (record c { packages = rest })
  unfolding write_next
  write_next_more c pkg rest h = ground arith

  pub send_package-writes :
      (pkg : Package B) (c : Connection B K)
      → writes (send_package pkg c).trace ≡ writes c.trace ++ pkg ∷ []
  unfolding send_package
  send_package-writes pkg c = writes-append c.trace _

  pub write_handler_ok :
      (p : Program B K) (c : Connection B K) → write_handler p c none ≡ some (write_next c)
  unfolding write_handler check_error
  write_handler_ok p c = refl

  -- After an error the handler stops, with the lock still set.
  pub write_handler_err :
      (p : Program B K)
      → IsQuiet p
      → (c c' : Connection B K) (code : ℕ) → write_handler p c (some code) ≡ some c'
      → SameWrites c c'
  unfolding write_handler
  write_handler_err p q c c' code h = elim (Option-cases (check_error p c (some code))) [
    | inl e ↦ cc
    | inr ((go, d), e) ↦
        let stops = (check_error_cases p c d code go e).0 in
        let same : d ≡ c' = ground (arith, rw e at h, stops) in
        rw same at (check_error-SameWrites p q c d code go e)
  ]
