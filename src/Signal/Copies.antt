-- ===== src/Signal/Copies.antt =====
-- What is left when signals are copied and destroyed (lsignal.h).
use lnetlib.Base.{
  ℕ, ◌≡◌, ◌≢◌, sym, ap, ◌∙◌, true, List, [], ◌∷◌, ◌++◌, append-nil, append_assoc, Option, none,
  some, ◌>>=◌,
}
use lnetlib.Signal.State.{Joint, Signal, Store, update, put, unheld, lock}
use lnetlib.Signal.Connecting.{connect_signal, disconnect_signal, erase_signal, forget_all}
use lnetlib.Signal.Lifetime.{copy_callbacks, assign, call_deleters, destroy_signal}
use lnetlib.Signal.Laws.{update_same, update_other, IsFree, IsFree-lock, put-IsFree}
use lnetlib.Signal.Lives.{forget_all-signals}

-- The joints that a copy takes over: those without an owner, in their order.
abbrev pub unowned : List Joint → List Joint
unowned [] = []
unowned (j ∷ js) = elim j.owner [ none ↦ j ∷ unowned js | some o ↦ unowned js ]

by_owner :
    (o : Option ℕ) (js : List Joint) (k : Joint) (ks : List Joint)
    → copy_callbacks (js ++ k ∷ []) ks ≡ js ++ k ∷ unowned ks
    → copy_callbacks js ks ≡ js ++ unowned ks
    → elim o [ none ↦ copy_callbacks (js ++ k ∷ []) ks | some o ↦ copy_callbacks js ks ]
      ≡ js ++ elim o [ none ↦ k ∷ unowned ks | some o ↦ unowned ks ]
by_owner none js k ks h h' = h
by_owner (some o) js k ks h h' = h'

copy_callbacks_lem : (js ks : List Joint) → copy_callbacks js ks ≡ js ++ unowned ks
unfolding copy_callbacks
copy_callbacks_lem js [] = sym (append-nil js)
copy_callbacks_lem js (k ∷ ks) =
    by_owner k.owner js k ks
      (copy_callbacks_lem (js ++ k ∷ []) ks ∙ append_assoc js (k ∷ []) (unowned ks))
      (copy_callbacks_lem js ks)

module _ {W : Type 0} where
  IsFree-bind :
      {B : Type 0} (m : Store W) (g : ℕ) (x : Signal) (k : Signal → Option B)
      → IsFree m g x
      → (lock g m >>= k) ≡ k x
  IsFree-bind m g x k h = ap (λ o. o >>= k) (IsFree-lock m g x h)

  -- A signal other than one that is put into the store.
  put-other : (m : Store W) (g k : ℕ) (x y : Signal) → k ≢ g → IsFree m k y → IsFree (put g x m) k y
  put-other m g k x y ne h = record {
    alive = update_other g k (some x) m.signals ne ∙ h.alive;
    free = h.free;
  }

  -- Copy assignment adds to the callbacks that a signal has, and does not replace them: afterwards
  -- it has its own, with their owners, and then those of the other signal that have no owner. The
  -- two signals must be different, with free mutexes.
  pub assign-callbacks :
      (g rhs : ℕ) (x y : Signal) (m : Store W)
      → g ≢ rhs
      → IsFree m g x
      → IsFree m rhs y
      → (m' : Store W) × (assign g rhs m ≡ some m')
        × (m'.signals g
            ≡ some (record x { locked = y.locked; callbacks = x.callbacks ++ unowned y.callbacks }))
  unfolding assign
  assign-callbacks g rhs x y m ne hx hy =
      let held = put g (record x { held = true }) m in
      let left = record x {
        locked = y.locked;
        callbacks = copy_callbacks x.callbacks y.callbacks;
      } in
      (
        put g left m,
        IsFree-bind m g x _ hx
            ∙ IsFree-bind held rhs y _ (put-other m g rhs _ y (λ e. ne (sym e)) hy),
        update_same g (some left) m.signals
            ∙ ap (λ js. some (record x { locked = y.locked; callbacks = js }))
                (copy_callbacks_lem x.callbacks y.callbacks),
      )

  -- A signal in the course of its destruction.
  abbrev emptied : ℕ → Signal → Store W → Store W
  emptied g x m = forget_all x.callbacks (put g (record x { held = true }) m)

  abbrev gone : ℕ → Store W → Store W
  gone g m = record m { signals = update g none m.signals }

  destroy_signal_lem :
      (g : ℕ) (x : Signal) (m : Store W) (ds : List ℕ)
      → IsFree m g x
      → x.deleters ≡ ds
      → destroy_signal g m ≡ (call_deleters ds g (emptied g x m) >>= λ m'. some (gone g m'))
  unfolding destroy_signal
  destroy_signal_lem g x m ds h d =
      IsFree-bind m g x _ h
      ∙ ap (λ ks. call_deleters ks g (emptied g x m) >>= λ m'. some (gone g m')) d

  emptied-other :
      (g k : ℕ) (x : Signal) (m : Store W) → k ≢ g → (emptied g x m).signals k ≡ m.signals k
  emptied-other g k x m ne =
      ap (λ f. f k) (forget_all-signals x.callbacks (put g (record x { held = true }) m))
      ∙ update_other g k (some (record x { held = true })) m.signals ne

  disconnect_signal_gone :
      (g sg : ℕ) (m : Store W) → m.signals g ≡ none → disconnect_signal g sg m ≡ none
  unfolding disconnect_signal
  disconnect_signal_gone g sg m h =
      ap
        (λ o.
          o >>= unheld >>= λ x. some (put g (record x { signals = erase_signal sg x.signals }) m))
        h

  connect_signal_lem :
      (g sg : ℕ) (x y : Signal) (m : Store W)
      → g ≢ sg
      → IsFree m g x
      → IsFree m sg y
      → connect_signal g sg m
        ≡ some (
            put g
              (record x { signals = x.signals ++ sg ∷ [] })
              (put sg (record y { deleters = y.deleters ++ g ∷ [] }) m))
  unfolding connect_signal
  connect_signal_lem g sg x y m ne hx hy =
      let held = put g (record x { held = true }) m in
      IsFree-bind m g x _ hx ∙ IsFree-bind held sg y _ (put-other m g sg _ y (λ e. ne (sym e)) hy)

  -- For two signals that were connected to no other, with free mutexes: when the second is
  -- connected to the first and the first is destroyed before it, the destruction of the second has
  -- no defined behaviour, since it calls the first, which is no longer there.
  pub destroy_signal-outer_first :
      (g sg : ℕ) (x y : Signal) (m : Store W)
      → g ≢ sg
      → IsFree m g x
      → IsFree m sg y
      → x.deleters ≡ []
      → y.deleters ≡ []
      → (m' m'' : Store W) × (connect_signal g sg m ≡ some m')
        × (destroy_signal g m' ≡ some m'')
        × (destroy_signal sg m'' ≡ none)
  destroy_signal-outer_first g sg x y m ne hx hy dx dy =
      let x' = record x { signals = x.signals ++ sg ∷ [] } in
      let y' = record y { deleters = y.deleters ++ g ∷ [] } in
      let m₁ = put sg y' m in
      let m' = put g x' m₁ in
      let m'' = gone g (emptied g x' m') in
      let ne' : sg ≢ g = λ e. ne (sym e) in
      let inner : IsFree m'' sg y' = record {
        alive =
            update_other g sg none (emptied g x' m').signals ne'
            ∙ emptied-other g sg x' m' ne'
            ∙ (put-other m₁ g sg x' y' ne' (put-IsFree m sg y' hy.free)).alive;
        free = hy.free;
      } in
      let left = emptied sg y' m'' in
      (
        m',
        m'',
        connect_signal_lem g sg x y m ne hx hy,
        destroy_signal_lem g x' m' [] (put-IsFree m₁ g x' hx.free) dx,
        destroy_signal_lem sg y' m'' (g ∷ []) inner (ap (λ ds. ds ++ g ∷ []) dy)
            ∙ ap (λ r. r >>= call_deleters [] sg >>= λ m. some (gone sg m))
                (disconnect_signal_gone g sg left
                  (emptied-other sg g y' m'' ne ∙ update_same g none (emptied g x' m').signals)),
      )
