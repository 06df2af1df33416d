-- ===== src/Signal/Lives.antt =====
-- What is left when slots are destroyed and when all is disconnected (lsignal.h).
use lnetlib.Base.{ℕ, suc, ◌≡◌, ◌≢◌, refl, sym, ap, ◌∙◌, List, [], ◌∷◌, ◌++◌, some, ◌>>=◌}
use lnetlib.Signal.State.{Joint, Signal, Connection, Store}
use lnetlib.Signal.Connecting.{
  connect, forget, erase_joint, disconnect_connection, forget_all, disconnect_all,
}
use lnetlib.Signal.Lifetime.{destroy_slot}
use lnetlib.Signal.Laws.{
  update_same, update_other, Below, joint, handle_of, IsFree, IsFree-lock, put-IsFree,
  connected_store, owned_store, connect_lem, destroy_connection_lem, forget-signals,
  erase_joint-other, erase_joint-signals,
}

module _ {W : Type 0} where
  pub forget_all-signals : (js : List Joint) (m : Store W) → (forget_all js m).signals ≡ m.signals
  forget_all-signals [] m = refl
  forget_all-signals (j ∷ js) m =
      forget_all-signals js (forget j.owner m) ∙ forget-signals j.owner m

  -- Disconnecting all, on a signal whose mutex is free, returns and leaves every callback of every
  -- signal connected.
  pub disconnect_all-signals :
      (g : ℕ) (x : Signal) (m : Store W)
      → IsFree m g x
      → (m' : Store W) × (disconnect_all g m ≡ some m') × (m'.signals ≡ m.signals)
  unfolding disconnect_all
  disconnect_all-signals g x m h = (
    forget_all x.callbacks m,
    ap (λ o. o >>= λ y. some (forget_all y.callbacks m)) (IsFree-lock m g x h),
    forget_all-signals x.callbacks m,
  )

  -- A slot that was given as the owner of a connection disconnects it when it is destroyed: the
  -- signal is as it was before. The signal's mutex must be free, and its connections older than the
  -- new one.
  pub destroy_slot-connect :
      (g callback o : ℕ) (x : Signal) (m : Store W)
      → IsFree m g x
      → Below m.next x.callbacks
      → (c : Connection) × (m' m'' : Store W) × (connect g callback (some o) m ≡ some (c, m'))
        × (destroy_slot o m' ≡ some m'')
        × (m''.signals g ≡ some x)
  unfolding destroy_slot disconnect_connection
  destroy_slot-connect g callback o x m h below =
      let grown = record x { callbacks = x.callbacks ++ joint callback m.next (some o) ∷ [] } in
      let m' = connected_store g callback (some o) x m in
      let free = put-IsFree (owned_store g (some o) m) g grown h.free in
      (
        handle_of g m.next,
        m',
        erase_joint g (some m.next) grown m',
        connect_lem g callback (some o) x m h,
        ap (λ c. disconnect_connection c m') (update_same o (handle_of g m.next) m.slots)
            ∙ destroy_connection_lem g m.next grown m' free,
        erase_joint-signals g callback m.next (some o) x m' below,
      )

  -- A slot remembers only its last connection: when one slot owns a connection to each of two
  -- signals and is destroyed, the second signal is as it was before, but the first signal keeps its
  -- callback and a pointer to the slot. Both mutexes must be free, and the second signal's
  -- connections older than the new ones.
  pub destroy_slot-reused :
      (g k callback other o : ℕ) (x y : Signal) (m : Store W)
      → g ≢ k
      → IsFree m g x
      → IsFree m k y
      → Below (suc m.next) y.callbacks
      → (c e : Connection) × (m' m'' m''' : Store W) × (connect g callback (some o) m
          ≡ some (c, m'))
        × (connect k other (some o) m' ≡ some (e, m''))
        × (destroy_slot o m'' ≡ some m''')
        × (m'''.signals k ≡ some y)
        × (m'''.signals g
            ≡ some (record x { callbacks = x.callbacks ++ joint callback m.next (some o) ∷ [] }))
  unfolding destroy_slot disconnect_connection
  destroy_slot-reused g k callback other o x y m ne hx hy below =
      let grown = record x { callbacks = x.callbacks ++ joint callback m.next (some o) ∷ [] } in
      let m' = connected_store g callback (some o) x m in
      let free = put-IsFree (owned_store g (some o) m) g grown hx.free in
      let hy' : IsFree m' k y = record {
        alive = update_other g k (some grown) m.signals (λ e. ne (sym e)) ∙ hy.alive;
        free = hy.free;
      } in
      let grown_other = record y {
        callbacks = y.callbacks ++ joint other (suc m.next) (some o) ∷ [];
      } in
      let m'' = connected_store k other (some o) y m' in
      let free' = put-IsFree (owned_store k (some o) m') k grown_other hy.free in
      let aside = update_other k g (some grown_other) (m'.signals) ne in
      (
        handle_of g m.next,
        handle_of k (suc m.next),
        m',
        m'',
        erase_joint k (some (suc m.next)) grown_other m'',
        connect_lem g callback (some o) x m hx,
        connect_lem k other (some o) y m' hy',
        ap (λ c. disconnect_connection c m'') (update_same o (handle_of k (suc m.next)) m'.slots)
            ∙ destroy_connection_lem k (suc m.next) grown_other m'' free',
        erase_joint-signals k other (suc m.next) (some o) y m'' below,
        erase_joint-other k (suc m.next) g grown_other m'' ne ∙ aside ∙ free.alive,
      )
