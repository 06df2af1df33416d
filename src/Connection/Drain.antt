-- ===== src/Connection/Drain.antt =====
-- What becomes of the packages that wait in the write queue of connection.cpp.
use lnetlib.Base.{
  ℕ, zero, suc, ◌≡◌, refl, ◌∙◌, true, false, List, [], ◌∷◌, ◌++◌, append-nil, append_assoc, Option,
  none, some, ◌>>=◌, arith, length,
}
use lnetlib.Bytes.{Endian}
use lnetlib.Streambuf.{Streambuf}
use lnetlib.Connection.State.{Package, Connection, Program}
use lnetlib.Connection.Sending.{create_package, send_package, write_handler}
use lnetlib.Connection.Writes.{writes, IsQuiet}
use lnetlib.Connection.WriteQueue.{
  dispatch_locked, write_next_empty, write_next_more, send_package-writes, send_package-packages,
  write_handler_ok,
}
use lnetlib.Connection.Serial.{Net, Step, dispatches, completes, fails, Reach, here, next, IsSerial}

module _ {B : Streambuf} {K : Type 0} (p : Program B K) where
  -- `k` writes in a row complete with success.
  pub complete : ℕ → Connection B K → Option (Connection B K)
  complete zero c = some c
  complete (suc k) c = write_handler p c none >>= complete k

  complete_lem :
      (ps : List (Package B)) (c : Connection B K)
      → c.packages ≡ ps
      → (c' : Connection B K) × (complete (suc (length ps)) c ≡ some c')
        × (writes c'.trace ≡ writes c.trace ++ ps)
        × (c'.packages ≡ [])
        × (c'.socket_locked ≡ false)
  unfolding complete
  complete_lem [] c h = (
    record c { socket_locked = false },
    rw (write_handler_ok p c, write_next_empty c h),
    rw append-nil,
    h,
    refl,
  )
  complete_lem (pkg ∷ rest) c h =
      let d : Connection B K = send_package pkg (record c { packages = rest }) in
      let (c', done, written, none_left, free) =
        complete_lem rest d (send_package-packages pkg (record c { packages = rest })) in
      (
        c',
        rw (write_handler_ok p c, write_next_more c pkg rest h) done,
        written ∙ rw (send_package-writes, append_assoc),
        none_left,
        free,
      )

  -- On any connection, whatever the program's slots do: after one successful completion for the
  -- write in flight and one for each waiting package, every completion has returned, all that
  -- waited has been written, in its order, nothing waits, and the connection is free.
  pub complete_all :
      (c : Connection B K)
      → (c' : Connection B K) × (complete (suc (length c.packages)) c ≡ some c')
        × (writes c'.trace ≡ writes c.trace ++ c.packages)
        × (c'.packages ≡ [])
        × (c'.socket_locked ≡ false)
  complete_all c = complete_lem c.packages c refl

module _ (B : Streambuf) (e : Endian) {K : Type 0} (p : Program B K) (quiet : IsQuiet p) where
  -- What stays once a write has failed.
  record Dead (n m : Net B K) : Type 0 where
    failed : m.failed ≡ true
    locked : m.conn.socket_locked ≡ true
    over : length (writes m.conn.trace) ≡ m.completed
    written : writes m.conn.trace ≡ writes n.conn.trace

  Step-Dead : {n m k : Net B K} → Dead n m → Step B e p m k → Dead n k
  Step-Dead {n} {m} v (dispatches b c h) =
      let is : record m.conn { packages = m.conn.packages ++ create_package B e b ∷ [] } ≡ c =
        ground (arith, dispatch_locked B e b m.conn v.locked) in
      rw (← is)
        (record { failed = v.failed; locked = v.locked; over = v.over; written = v.written })
  Step-Dead v (completes c started h) = absurd (omega (arith, v.over))
  Step-Dead v (fails c code started h) = absurd (omega (arith, v.over))

  -- From a state in which a write has failed, and which meets the invariant of the write side,
  -- nothing is ever written again, whatever is dispatched: the lock stays set and no write is in
  -- flight that could release it. The program's slots for `closed` and `error` must leave the write
  -- side alone.
  pub Reach_failed :
      (n m : Net B K)
      → IsSerial n
      → n.failed ≡ true
      → Reach B e p n m
      → (writes m.conn.trace ≡ writes n.conn.trace) × (m.conn.socket_locked ≡ true)
  Reach_failed n m v broken r = let d = go r in (d.written, d.locked)
    where
      go : {k : Net B K} → Reach B e p n k → Dead n k
      go here = record {
        failed = broken;
        locked = (v.stuck broken).0;
        over = (v.stuck broken).1;
        written = refl;
      }
      go (next s t) = Step-Dead (go s) t
