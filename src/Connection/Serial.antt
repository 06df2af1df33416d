-- ===== src/Connection/Serial.antt =====
-- The write side of connection.cpp as a queue: what the dispatch slot and the completions of writes
-- do in any interleaving.
use lnetlib.Base.{
  ℕ, ◌+◌, ◌<◌, ◌≡◌, refl, sym, ap, ◌∙◌, Bool, true, false, List, [], ◌∷◌, ◌++◌, append-nil,
  append_assoc, none, some, arith, length, length-append, Bool-cases, inl, inr,
}
use lnetlib.Bytes.{Endian}
use lnetlib.Streambuf.{Streambuf}
use lnetlib.Connection.State.{Package, Connection, Program, connection, wait_package}
use lnetlib.Connection.Sending.{
  create_package, send_package, write_next, write_handler, dispatch_slot,
}
use lnetlib.Connection.Writes.{writes, IsQuiet}
use lnetlib.Connection.WriteQueue.{
  dispatch_locked, dispatch_free, write_next_empty, write_next_more, send_package-writes,
  send_package-packages, send_package-locked, write_handler_ok, write_handler_err,
}

-- A connection with its history: every package that was dispatched, in order, how many writes have
-- completed, and whether one has failed.
pub record Net (B : Streambuf) (K : Type 0) : Type 0 where
  pub conn : Connection B K
  pub submitted : List (Package B)
  pub completed : ℕ
  pub failed : Bool

module _ (B : Streambuf) (e : Endian) {K : Type 0} (p : Program B K) where
  -- A dispatch may come at any time; a write completes, with success or with an error, only if it
  -- was started.
  pub data Step (n : Net B K) : Net B K → Type 0 where
    dispatches :
        (b : B.Buffer) (c : Connection B K)
        → dispatch_slot B e (some b) n.conn ≡ some c
        → Step n (record n { conn = c; submitted = n.submitted ++ create_package B e b ∷ [] })
    completes :
        (c : Connection B K)
        → n.completed < length (writes n.conn.trace)
        → write_handler p n.conn none ≡ some c
        → Step n (record n { conn = c; completed = n.completed + 1 })
    fails :
        (c : Connection B K) (code : ℕ)
        → n.completed < length (writes n.conn.trace)
        → write_handler p n.conn (some code) ≡ some c
        → Step n (record n { conn = c; completed = n.completed + 1; failed = true })

  pub data Reach (n : Net B K) : Net B K → Type 0 where
    here : Reach n n
    next : {m k : Net B K} → Reach n m → Step m k → Reach n k

abbrev pub idle : {B : Streambuf} {K : Type 0} → Net B K
idle = record { conn = connection; submitted = []; completed = 0; failed = false }

-- Writes leave in the order of dispatch, one at a time: while the connection is locked one write is
-- in flight (or one has failed), and otherwise none is, and nothing waits.
pub record IsSerial {B : Streambuf} {K : Type 0} (n : Net B K) : Type 0 where
  pub fifo : writes n.conn.trace ++ n.conn.packages ≡ n.submitted
  pub busy :
      n.conn.socket_locked ≡ true
      → n.failed ≡ false
      → length (writes n.conn.trace) ≡ n.completed + 1
  pub stuck :
      n.failed ≡ true → (n.conn.socket_locked ≡ true) × (length (writes n.conn.trace) ≡ n.completed)
  pub ready :
      n.conn.socket_locked ≡ false
      → (length (writes n.conn.trace) ≡ n.completed) × (n.conn.packages ≡ [])

module _ (B : Streambuf) (e : Endian) {K : Type 0} (p : Program B K) (quiet : IsQuiet p) where
  dispatches-IsSerial :
      (n : Net B K) (b : B.Buffer) (c : Connection B K)
      → dispatch_slot B e (some b) n.conn ≡ some c
      → IsSerial n
      → IsSerial (record n { conn = c; submitted = n.submitted ++ create_package B e b ∷ [] })
  dispatches-IsSerial n b c h v = elim (Bool-cases n.conn.socket_locked) [
    | inl locked ↦
        let is : record n.conn { packages = n.conn.packages ++ create_package B e b ∷ [] } ≡ c =
          ground (arith, dispatch_locked B e b n.conn locked) in
        rw (← is) (record {
          fifo = rw (← append_assoc _ n.conn.packages (create_package B e b ∷ []), v.fifo);
          busy = v.busy;
          stuck = v.stuck;
          ready = λ free. cc;
        })
    | inr free ↦
        let is : send_package (create_package B e b) n.conn ≡ c =
          ground (arith, dispatch_free B e b n.conn free) in
        rw (← is) (record {
          fifo =
              rw (send_package-writes, send_package-packages, (v.ready free).1, append-nil)
                (ap (λ xs. xs ++ create_package B e b ∷ [])
                  (sym (append-nil _)
                    ∙ ap (◌++◌ (writes n.conn.trace)) (sym (v.ready free).1)
                    ∙ v.fifo));
          busy = λ locked working. rw send_package-writes (
              omega (
                arith,
                length-append (writes n.conn.trace) (create_package B e b ∷ []),
                (v.ready free).0,
              ));
          stuck = λ broken. cc ((v.stuck broken).0);
          ready = λ unlocked. cc (send_package-locked (create_package B e b) n.conn);
        })
  ]

  -- A write that has been started and has not completed is the only one, and none has failed.
  in_flight :
      (n : Net B K)
      → n.completed < length (writes n.conn.trace)
      → IsSerial n
      → (n.conn.socket_locked ≡ true)
        × (n.failed ≡ false)
        × (length (writes n.conn.trace) ≡ n.completed + 1)
  in_flight n started v = elim (Bool-cases n.failed) [
    | inl broken ↦ absurd (omega (arith, (v.stuck broken).1))
    | inr working ↦ elim (Bool-cases n.conn.socket_locked) [
      | inl locked ↦ (locked, working, v.busy locked working)
      | inr free ↦ absurd (omega (arith, (v.ready free).0))
    ]
  ]

  completes-IsSerial :
      (n : Net B K) (c : Connection B K)
      → n.completed < length (writes n.conn.trace)
      → write_handler p n.conn none ≡ some c
      → IsSerial n
      → IsSerial (record n { conn = c; completed = n.completed + 1 })
  completes-IsSerial n c started h v =
      let is : write_next n.conn ≡ c = ground (arith, write_handler_ok p n.conn, h) in
      rw (← is) (go n.conn.packages refl (in_flight n started v))
    where
      go :
          (ps : List (Package B))
          → n.conn.packages ≡ ps
          → (n.conn.socket_locked ≡ true)
            × (n.failed ≡ false)
            × (length (writes n.conn.trace) ≡ n.completed + 1)
          → IsSerial (record n { conn = write_next n.conn; completed = n.completed + 1 })
      go [] none_left flight = rw (write_next_empty n.conn none_left) (record {
        fifo = v.fifo;
        busy = λ locked. cc;
        stuck = λ broken. cc (flight.1);
        ready = λ free. (flight.2, none_left);
      })
      go (pkg ∷ rest) some_left flight = rw (write_next_more n.conn pkg rest some_left) (record {
        fifo =
            rw (send_package-writes, send_package-packages, append_assoc)
              (ap (◌++◌ (writes n.conn.trace)) (sym some_left) ∙ v.fifo);
        busy = λ locked working.
            rw send_package-writes
              (omega (arith, length-append (writes n.conn.trace) (pkg ∷ []), flight.2));
        stuck = λ broken. cc (flight.1);
        ready = λ free. cc (send_package-locked pkg (record n.conn { packages = rest }));
      })

  fails-IsSerial :
      (n : Net B K) (c : Connection B K) (code : ℕ)
      → n.completed < length (writes n.conn.trace)
      → write_handler p n.conn (some code) ≡ some c
      → IsSerial n
      → IsSerial (record n { conn = c; completed = n.completed + 1; failed = true })
  fails-IsSerial n c code started h v =
      let same = write_handler_err p quiet n.conn c code h in
      let (locked, working, one) = in_flight n started v in
      record {
        fifo = rw (same.written, same.packages) v.fifo;
        busy = λ _ w. cc;
        stuck = λ _. (same.locked ∙ locked, rw same.written one);
        ready = λ free. cc (same.locked, locked);
      }

  -- In every state that a new connection can reach by dispatches and by completions of its writes,
  -- in any order, the packages that were written and those that wait are the dispatched ones in the
  -- order of dispatch; at most one write is in flight; and what waits waits for it, or for ever
  -- once a write has failed. The program's slots for `closed` and `error` must leave the write side
  -- alone.
  pub Reach-IsSerial : (n : Net B K) → Reach B e p idle n → IsSerial n
  Reach-IsSerial n r = go r
    where
      start : IsSerial (idle {B = B} {K = K})
      start =
          unfold connection wait_package in
          record {
            fifo = refl;
            busy = λ locked. cc;
            stuck = λ broken. cc;
            ready = λ free. (refl, refl);
          }

      step : {m k : Net B K} → Step B e p m k → IsSerial m → IsSerial k
      step (dispatches b c h) v = dispatches-IsSerial _ b c h v
      step (completes c started h) v = completes-IsSerial _ c started h v
      step (fails c code started h) v = fails-IsSerial _ c code started h v

      go : {m : Net B K} → Reach B e p idle m → IsSerial m
      go here = start
      go (next s t) = step t (go s)
