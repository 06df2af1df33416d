-- ===== src/Server/Fates.antt =====
-- The life of a connection of a server (server.cpp and connection.cpp) follows the list of the
-- server and the pointers of the program alone.
use mathlib.Core.Option
use lnetlib.Base.{ℕ, ◌≡◌, refl, true, List, [], ◌∷◌, arith, ◌==◌, inl, inr}
use lnetlib.Signal.State.{Store}
use lnetlib.Connection.Owners.{closed, error, received, Shared, pointers}
use lnetlib.Connection.Lifespan.{emit_shared_gone}
use lnetlib.Connection.Shutting.{closing}
use lnetlib.Server.State.{Server, Program}
use lnetlib.Server.Hosting.{IsIdle}
use lnetlib.Server.Owners.{error-received_owned}
use lnetlib.Server.Custody.{
  Happening, leaves, fails, gets, quits, completes, copies, drops, slots, happen, life, is_owned,
  fate, fates, custody, IsAlive, IsGone, IsSound,
}
use lnetlib.Server.Turns.{
  Alike, leaves-Alike, quits-Alike, emission-Alike, no_pointers, copies-Alike, drops-Alike,
}

module _ (p : Program) (conn : ℕ) (idle : IsIdle p) where
  happen_alive :
      (x : Happening) (m : Store (Shared Server))
      → IsSound conn m
      → IsAlive conn m
      → Alike conn (happen p conn x m) (fate x (custody conn m))
  unfolding happen
  happen_alive leaves m s l = leaves-Alike p conn idle m s l
  happen_alive (fails code) m s l =
      emission-Alike p conn idle m s l _ _
        (error-received_owned p conn idle code m l.attached (omega (arith, l.owned))).0
        (record {
          paired = s.registered.paired;
          distinct = s.registered.distinct;
          free = s.registered.free;
        })
        refl
  happen_alive gets m s l =
      emission-Alike p conn idle m s l _ _
        (error-received_owned p conn idle 0 m l.attached (omega (arith, l.owned))).1
        (record {
          paired = s.registered.paired;
          distinct = s.registered.distinct;
          free = s.registered.free;
        })
        refl
  happen_alive quits m s l = quits-Alike p conn idle m s l
  happen_alive completes m s l =
      let there : is_owned (custody conn m) ≡ true = ground (arith, l.owned) in
      inr (m, rw l.attached.signal_0 refl, rw there refl, s)
  happen_alive copies m s l = copies-Alike p conn idle m s l
  happen_alive drops m s l = drops-Alike p conn idle m s l

  happen_gone :
      (x : Happening) (m : Store (Shared Server))
      → IsSound conn m
      → IsGone conn m
      → Alike conn (happen p conn x m) (fate x (custody conn m))
  unfolding happen
  happen_gone leaves m s g =
      inl (emit_shared_gone (slots p conn) closed m g.signal_0, rw g.unkept refl)
  happen_gone (fails code) m s g =
      inl
        (emit_shared_gone (slots p conn) (error code) m g.signal_1, rw (g.unkept, g.unlisted) refl)
  happen_gone gets m s g =
      inl (emit_shared_gone (slots p conn) received m g.signal_2, rw (g.unkept, g.unlisted) refl)
  happen_gone quits m s g =
      inl (emit_shared_gone (closing (slots p conn)) received m g.signal_2, rw g.unkept refl)
  happen_gone completes m s g = inl (rw g.signal_0 refl, rw (g.unkept, g.unlisted) refl)
  happen_gone copies m s g =
      let none_left : (pointers (slots p conn) m.world == 0) ≡ true =
        no_pointers p conn idle m s g in
      inr (m, rw none_left refl, rw (g.unkept, g.unlisted) refl, s)
  happen_gone drops m s g = inr (m, rw g.unkept refl, rw (g.unkept, g.unlisted) refl, s)

  happen-Alike :
      (x : Happening) (m : Store (Shared Server))
      → IsSound conn m
      → Alike conn (happen p conn x m) (fate x (custody conn m))
  happen-Alike x m s = elim s.life_or_death [
    | inl l ↦ happen_alive x m s l
    | inr g ↦ happen_gone x m s g
  ]

  -- From any sound state.
  pub life-fates :
      (xs : List Happening) (m : Store (Shared Server))
      → IsSound conn m
      → Option.map (custody conn) (life p conn xs m) ≡ fates xs (custody conn m)
  unfolding life
  life-fates [] m s = refl
  life-fates (x ∷ xs) m s = elim (happen-Alike x m s) [
    | inl (e, f) ↦ rw (e, f) refl
    | inr (n, e, f, s') ↦ rw (e, f) (life-fates xs n s')
  ]
