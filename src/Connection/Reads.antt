-- ===== src/Connection/Reads.antt =====
-- The read side of connection.cpp: the reads that a connection has started, and a peer's bytes that
-- complete them one after the other.
use lnetlib.Base.{
  ℕ, zero, suc, ◌+◌, ◌≡◌, refl, ap, false, List, [], ◌∷◌, ◌++◌, Option, none, some, ◌>>=◌, arith,
  length, take, drop, ltb, if◌then◌else◌, get_elem?, get_elem?-append, le→ltb, length-append,
  take-append, drop-append,
}
use lnetlib.Bytes.{Endian}
use lnetlib.Streambuf.{Streambuf}
use lnetlib.Connection.State.{
  ReadKind, size, body, Effect, async_read, async_write, socket_closed, closed, error, received,
  called, thrown, Connection, Program,
}
use lnetlib.Connection.Receiving.{read_package_size_handler, read_package_body_handler}

module _ {B : Streambuf} {K : Type 0} where
  -- The reads among the effects, and the deliveries of messages.
  abbrev pub reads : List (Effect B K) → List (ReadKind × ℕ)
  reads [] = []
  reads (async_read k n ∷ xs) = (k, n) ∷ reads xs
  reads (async_write pkg ∷ xs) = reads xs
  reads (socket_closed ∷ xs) = reads xs
  reads (closed ∷ xs) = reads xs
  reads (error code ∷ xs) = reads xs
  reads (received d ∷ xs) = reads xs
  reads (called k d ∷ xs) = reads xs
  reads (thrown code ∷ xs) = reads xs

  abbrev pub deliveries : List (Effect B K) → List (Effect B K)
  deliveries [] = []
  deliveries (async_read k n ∷ xs) = deliveries xs
  deliveries (async_write pkg ∷ xs) = deliveries xs
  deliveries (socket_closed ∷ xs) = deliveries xs
  deliveries (closed ∷ xs) = deliveries xs
  deliveries (error code ∷ xs) = deliveries xs
  deliveries (received d ∷ xs) = received d ∷ deliveries xs
  deliveries (called k d ∷ xs) = called k d ∷ deliveries xs
  deliveries (thrown code ∷ xs) = deliveries xs

  pub reads-append : (xs ys : List (Effect B K)) → reads (xs ++ ys) ≡ reads xs ++ reads ys
  reads-append [] ys = refl
  reads-append (async_read k n ∷ xs) ys = ap (◌∷◌ (k, n)) (reads-append xs ys)
  reads-append (async_write pkg ∷ xs) ys = reads-append xs ys
  reads-append (socket_closed ∷ xs) ys = reads-append xs ys
  reads-append (closed ∷ xs) ys = reads-append xs ys
  reads-append (error code ∷ xs) ys = reads-append xs ys
  reads-append (received d ∷ xs) ys = reads-append xs ys
  reads-append (called k d ∷ xs) ys = reads-append xs ys
  reads-append (thrown code ∷ xs) ys = reads-append xs ys

  pub deliveries-append :
      (xs ys : List (Effect B K)) → deliveries (xs ++ ys) ≡ deliveries xs ++ deliveries ys
  deliveries-append [] ys = refl
  deliveries-append (async_read k n ∷ xs) ys = deliveries-append xs ys
  deliveries-append (async_write pkg ∷ xs) ys = deliveries-append xs ys
  deliveries-append (socket_closed ∷ xs) ys = deliveries-append xs ys
  deliveries-append (closed ∷ xs) ys = deliveries-append xs ys
  deliveries-append (error code ∷ xs) ys = deliveries-append xs ys
  deliveries-append (received d ∷ xs) ys = ap (◌∷◌ (received d)) (deliveries-append xs ys)
  deliveries-append (called k d ∷ xs) ys = ap (◌∷◌ (called k d)) (deliveries-append xs ys)
  deliveries-append (thrown code ∷ xs) ys = deliveries-append xs ys

-- A connection, how many of its reads have completed, and the bytes from the peer that no read has
-- taken yet.
pub record Inbox (B : Streambuf) (K : Type 0) : Type 0 where
  pub conn : Connection B K
  pub served : ℕ
  pub inbound : List ℕ

module _ (B : Streambuf) (e : Endian) {K : Type 0} (p : Program B K) (j k : ℕ) where
  -- The handler of a read that got the bytes `got`, as `transfer_exactly` completes it.
  unfoldable pub complete_read : Connection B K → ReadKind → List ℕ → Option (Connection B K)
  complete_read c size got =
      read_package_size_handler B e p c (B.sputn B.new_buffer got) none (length got)
  complete_read c body got =
      read_package_body_handler B e p c (B.sputn B.new_buffer got) j k none (length got)

  -- A read completes if all its bytes are there, and waits if not.
  unfoldable pub serve_read : Inbox B K → Option (ReadKind × ℕ) → Option (Inbox B K)
  serve_read x none = some x
  serve_read x (some (kind, n)) =
      if ltb (length x.inbound) n
      then some x
      else (complete_read x.conn kind (take n x.inbound) >>= λ c.
          some (record { conn = c; served = x.served + 1; inbound = drop n x.inbound }))

  unfoldable pub serve : Inbox B K → Option (Inbox B K)
  unfolding serve_read
  serve x = serve_read x (get_elem? (reads x.conn.trace) x.served)

  unfoldable pub serve_times : ℕ → Inbox B K → Option (Inbox B K)
  serve_times zero x = some x
  serve_times (suc n) x = serve x >>= serve_times n

  -- One completed read.
  pub serve_lem :
      (x : Inbox B K) (done : List (ReadKind × ℕ)) (kind : ReadKind) (n : ℕ) (got rest : List ℕ)
      (c : Connection B K)
      → reads x.conn.trace ≡ done ++ (kind, n) ∷ []
      → x.served ≡ length done
      → x.inbound ≡ got ++ rest
      → length got ≡ n
      → complete_read x.conn kind got ≡ some c
      → serve x ≡ some (record { conn = c; served = x.served + 1; inbound = rest })
  unfolding serve
  serve_lem x done kind n got rest c asked count there len h =
      let found : get_elem? (reads x.conn.trace) x.served ≡ some (kind, n) =
        rw (asked, count) (get_elem?-append done (kind, n)) in
      let enough : ltb (length x.inbound) n ≡ false =
        rw (there, ← len) (le→ltb _ _ (omega (arith, length-append got rest))) in
      let front : take n x.inbound ≡ got = rw (there, ← len) (take-append got rest) in
      let back : drop n x.inbound ≡ rest = rw (there, ← len) (drop-append got rest) in
      rw (found, enough, front, back, h)
