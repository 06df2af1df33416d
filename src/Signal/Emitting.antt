-- ===== src/Signal/Emitting.antt =====
-- Emission (signal::operator() of lsignal.h), for an argument that is copied.
use lnetlib.Base.{
  ℕ, zero, suc, true, false, List, [], ◌∷◌, Option, none, some, ◌>>=◌, if◌then◌else◌,
}
use lnetlib.Signal.State.{Joint, Signal, Store, put, lock}

-- What a callback does when it is called. `none`: it does not return.
abbrev pub Program : Type 0 → Type 0 → Type 0 → Type 0
Program A R W = ℕ → A → Store W → Option (R × Store W)

-- The mutex is given back on the signal as the callbacks have left it.
abbrev pub release : {R W : Type 0} → ℕ → R × Store W → Option (R × Store W)
release g (r, m) = m.signals g >>= λ x. some (r, put g (record x { held = false }) m)

module _ {A R W : Type 0} (p : Program A R W) (default : R) where
  -- The joints, in the order of their connection. A connection that is locked is passed over. The
  -- result is that of the last joint, and the default of its type if that is locked or there is
  -- none.
  unfoldable pub call_joint : Joint → A → Store W → Option (R × Store W)
  call_joint j a m = if m.flags j.connection then some (default, m) else p j.callback a m

  unfoldable pub call_joints : List Joint → A → Store W → Option (R × Store W)
  call_joints [] a m = some (default, m)
  call_joints (j ∷ []) a m = call_joint j a m
  call_joints (j ∷ k ∷ js) a m = do (r, m') ← call_joint j a m; call_joints (k ∷ js) a m'

  abbrev pub emit_all :
      (ℕ → A → Store W → Option (R × Store W)) → List ℕ → A → Store W → Option (Store W)
  emit_all e [] a m = some m
  emit_all e (g ∷ gs) a m = e g a m >>= λ r. emit_all e gs a (r.1)

  -- The signals that are connected are emitted first. Each level of them takes one unit of fuel; a
  -- signal that contains itself would wait for its own mutex.
  abbrev pub emit_locked :
      (ℕ → A → Store W → Option (R × Store W)) → ℕ → Signal → A → Store W → Option (R × Store W)
  emit_locked e g x a m =
      if x.locked
      then some (default, m)
      else (emit_all e x.signals a m >>= call_joints x.callbacks a)

  unfoldable pub emit : ℕ → ℕ → A → Store W → Option (R × Store W)
  emit zero g a m = none
  emit (suc n) g a m = do
    x ← lock g m
    r ← emit_locked (emit n) g x a (put g (record x { held = true }) m)
    release g r
