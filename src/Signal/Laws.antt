-- ===== src/Signal/Laws.antt =====
-- Connecting, disconnecting and the lifetime of signals and slots (lsignal.h).
use lnetlib.Base.{
  ℕ, suc, ◌<◌, ◌≡◌, ◌≢◌, refl, ap, ◌∙◌, false, List, [], ◌∷◌, ◌++◌, Option, none, some, ◌>>=◌, ◌==◌,
  if◌then◌else◌, ==_self, All, arith,
}
use lnetlib.Signal.State.{Joint, Signal, Connection, Store, update, put, unheld, lock}
use lnetlib.Signal.Connecting.{
  own, create_connection, connect, forget, without_joint, owner_of, erase_joint, destroy_connection,
  disconnect_connection, disconnect, prepare_connection,
}

pub update_same {ℓ} : {A : Type ℓ} (k : ℕ) (a : A) (f : ℕ → A) → update k a f k ≡ a
update_same k a f = ap (λ b. if b then a else f k) (==_self k)

ne→== : (a b : ℕ) → a ≢ b → (a == b) ≡ false
ne→== a b h = ground arith

pub update_other {ℓ} : {A : Type ℓ} (k i : ℕ) (a : A) (f : ℕ → A) → i ≢ k → update k a f i ≡ f i
update_other k i a f h = ap (λ b. if b then a else f i) (ne→== i k h)

-- The connections of the joints are older than the next one.
abbrev pub Below : ℕ → List Joint → Type 0
Below n js = All (λ j. j.connection < n) js

abbrev pub joint : ℕ → ℕ → Option ℕ → Joint
joint callback d owner = record { callback = callback; connection = d; owner = owner }

-- What `connect` returns.
abbrev pub handle_of : ℕ → ℕ → Connection
handle_of g d = record { data_ = some d; deleter = some g }

without_joint-append :
    (d callback : ℕ) (owner : Option ℕ) (js : List Joint)
    → Below d js
    → without_joint d (js ++ joint callback d owner ∷ []) ≡ js
without_joint-append d callback owner [] h = rw (==_self d) refl
without_joint-append d callback owner (j ∷ js) h =
    let rest = without_joint-append d callback owner js h.1 in
    rw (ne→== j.connection d (λ e. omega (arith, h.0, e))) (ap (◌∷◌ j) rest)

-- A signal that is alive and whose mutex is free.
pub record IsFree {W : Type 0} (m : Store W) (g : ℕ) (x : Signal) : Type 0 where
  pub alive : m.signals g ≡ some x
  pub free : x.held ≡ false

module _ {W : Type 0} where
  pub IsFree-lock : (m : Store W) (g : ℕ) (x : Signal) → IsFree m g x → lock g m ≡ some x
  IsFree-lock m g x h = ap (λ o. o >>= unheld) h.alive ∙ ap (λ b. if b then none else some x) h.free

  pub put-IsFree : (m : Store W) (g : ℕ) (x : Signal) → x.held ≡ false → IsFree (put g x m) g x
  put-IsFree m g x h = record { alive = update_same g (some x) m.signals; free = h }

  own-signals : (g d : ℕ) (owner : Option ℕ) (m : Store W) → (own g d owner m).signals ≡ m.signals
  own-signals g d none m = refl
  own-signals g d (some o) m = refl

  pub forget-signals : (owner : Option ℕ) (m : Store W) → (forget owner m).signals ≡ m.signals
  forget-signals none m = refl
  forget-signals (some o) m = refl

  -- The store in the course of a connection, and after it.
  abbrev pub owned_store : ℕ → Option ℕ → Store W → Store W
  owned_store g owner m =
      own g m.next owner (record m { next = suc m.next; flags = update m.next false m.flags })

  abbrev pub connected_store : ℕ → ℕ → Option ℕ → Signal → Store W → Store W
  connected_store g callback owner x m =
      put g (record x { callbacks = x.callbacks ++ joint callback m.next owner ∷ [] })
        (owned_store g owner m)

  pub connect_lem :
      (g callback : ℕ) (owner : Option ℕ) (x : Signal) (m : Store W)
      → IsFree m g x
      → connect g callback owner m ≡ some (handle_of g m.next, connected_store g callback owner x m)
  unfolding connect create_connection prepare_connection
  connect_lem g callback owner x m h =
      let m' : Store W = record m { next = suc m.next; flags = update m.next false m.flags } in
      let same = ap (λ f. f g >>= unheld) (own-signals g m.next owner m') in
      let e : lock g (own g m.next owner m') ≡ some x = same ∙ IsFree-lock m g x h in rw e refl

  pub erase_joint-other :
      (g d i : ℕ) (x : Signal) (m : Store W)
      → i ≢ g
      → (erase_joint g (some d) x m).signals i ≡ m.signals i
  erase_joint-other g d i x m h =
      let left = record x { callbacks = without_joint d x.callbacks } in
      update_other g i (some left) (forget (owner_of d x.callbacks) m).signals h
      ∙ ap (λ f. f i) (forget-signals (owner_of d x.callbacks) m)

  pub erase_joint-signals :
      (g callback d : ℕ) (owner : Option ℕ) (x : Signal) (m : Store W)
      → Below d x.callbacks
      → (erase_joint g
            (some d)
            (record x { callbacks = x.callbacks ++ joint callback d owner ∷ [] })
            m).signals
          g
        ≡ some x
  erase_joint-signals g callback d owner x m below =
      let js = x.callbacks ++ joint callback d owner ∷ [] in
      update_same g (some (record x { callbacks = without_joint d js }))
        (forget (owner_of d js) m).signals
      ∙ ap (λ js. some (record x { callbacks = js }))
          (without_joint-append d callback owner x.callbacks below)

  pub destroy_connection_lem :
      (g d : ℕ) (x : Signal) (m : Store W)
      → IsFree m g x
      → destroy_connection g (some d) m ≡ some (erase_joint g (some d) x m)
  unfolding destroy_connection
  destroy_connection_lem g d x m h =
      ap (λ o. o >>= λ y. some (erase_joint g (some d) y m)) (IsFree-lock m g x h)

  -- Connecting a callback to a signal and then disconnecting what `connect` returned, by the signal
  -- or by the connection itself, leaves the signal exactly as it was; in between the callback is
  -- the last of the signal's. The signal's mutex must be free, and its connections older than the
  -- new one.
  pub disconnect-connect :
      (g callback : ℕ) (owner : Option ℕ) (x : Signal) (m : Store W)
      → IsFree m g x
      → Below m.next x.callbacks
      → (c : Connection) × (m' m'' : Store W) × (connect g callback owner m ≡ some (c, m'))
        × (m'.signals g
            ≡ some (record x { callbacks = x.callbacks ++ joint callback m.next owner ∷ [] }))
        × (disconnect g c m' ≡ some m'')
        × (disconnect_connection c m' ≡ some m'')
        × (m''.signals g ≡ some x)
  unfolding disconnect disconnect_connection
  disconnect-connect g callback owner x m h below =
      let grown = record x { callbacks = x.callbacks ++ joint callback m.next owner ∷ [] } in
      let m' = connected_store g callback owner x m in
      let free = put-IsFree (owned_store g owner m) g grown h.free in
      let gone = destroy_connection_lem g m.next grown m' free in
      (
        handle_of g m.next,
        m',
        erase_joint g (some m.next) grown m',
        connect_lem g callback owner x m h,
        free.alive,
        gone,
        gone,
        erase_joint-signals g callback m.next owner x m' below,
      )
