-- ===== src/Server/Admission.antt =====
-- The whole of server::add_connection (server.cpp): the slots are connected to the new connection,
-- then the server takes pointers to it. And its life from there.
use mathlib.Core.Option
use lnetlib.Base.{
  ℕ, ◌<◌, ◌≡◌, refl, ap, ◌∙◌, true, false, List, [], ◌∷◌, ◌++◌, Option, none, some, ◌>>=◌, arith,
  ==_self, inl, All,
}
use lnetlib.Signal.State.{Store, signal}
use lnetlib.Connection.Owners.{Shared, with_registry, connect_slots}
use lnetlib.Connection.Attaching.{attach, same_signals}
use lnetlib.Connection.Sending.{insert}
use lnetlib.Server.State
use lnetlib.Server.State.{Server, Program, record_effect}
use lnetlib.Server.Accepting.{add_connection}
use lnetlib.Server.Events.{NotIn}
use lnetlib.Server.Roster.{keys-insert, Distinct-append}
use lnetlib.Server.Registry.{IsRegistered}
use lnetlib.Server.Hosting.{IsIdle}
use lnetlib.Server.Owners.{count}
use lnetlib.Server.Custody.{
  Happening, leaves, fails, gets, quits, completes, copies, drops, life, fates, custody, IsSound,
}
use lnetlib.Server.Fates.{life-fates}

module _ (p : Program) (conn session : ℕ) where
  unfoldable pub admit : Store (Shared Server) → Option (Store (Shared Server))
  admit m = do
    m' ← connect_slots m
    s ← add_connection p conn session m'.world.registry
    some (with_registry s m')

-- A connection that was just made: its signals have no slots, and nobody has a pointer to it.
pub record IsNew (m : Store (Shared Server)) : Type 0 where
  pub next_free : m.next ≡ 0
  pub closed_new : m.signals 0 ≡ some signal
  pub error_new : m.signals 1 ≡ some signal
  pub received_new : m.signals 2 ≡ some signal
  pub unkept : m.world.kept ≡ 0
  pub unpassed : m.world.passed ≡ 0

abbrev listing : ℕ → ℕ → Server → Server
listing conn session s = record s {
  connections = s.connections ++ conn ∷ [];
  sessions = insert conn session s.sessions;
  trace = s.trace ++ State.connected conn ∷ [];
}

count-append : (conn : ℕ) (cs : List ℕ) → 0 < count conn (cs ++ conn ∷ [])
count-append conn [] = rw (==_self conn) (omega arith)
count-append conn (c ∷ cs) = omega (arith, count-append conn cs)

listing-IsRegistered :
    (conn session : ℕ) (s : Server)
    → IsRegistered s
    → NotIn conn s.connections
    → IsRegistered (listing conn session s)
listing-IsRegistered conn session s v fresh = record {
  paired =
      keys-insert conn session s.sessions (rw v.paired fresh) ∙ ap (λ cs. cs ++ conn ∷ []) v.paired;
  distinct = Distinct-append conn s.connections fresh v.distinct;
  free = v.free;
}

module _ (p : Program) (conn session : ℕ) (idle : IsIdle p)
    (quiet : (s : Server) → p.on_connected conn s ≡ some s) where
  add_lem :
      (s : Server)
      → s.locked ≡ false
      → add_connection p conn session s ≡ some (listing conn session s)
  unfolding add_connection
  add_lem s free = rw (free, quiet) refl

  -- A server that is in order adds a connection that was just made, whose address is new; then the
  -- peer leaves, reads and writes fail, messages come in, some of them at a slot of the program
  -- that closes the connection, writes complete, and the program takes pointers and lets go of
  -- them, in any order. `fates`, which sees only whether the server lists the connection and how
  -- many pointers the program has, is undefined exactly where the behaviour of the whole is, and
  -- otherwise says what both are at the end. The program's other slots do nothing.
  pub admit-fates :
      (xs : List Happening) (m : Store (Shared Server))
      → IsNew m
      → IsRegistered m.world.registry
      → NotIn conn m.world.registry.connections
      → Option.map (custody conn) (admit p conn session m >>= life p conn xs)
        ≡ fates xs (record { listed = true; copies_kept = 0 })
  unfolding admit
  admit-fates xs m new v fresh =
      let (m', done, a, same) =
        attach m new.next_free new.closed_new new.error_new new.received_new in
      let there = count-append conn m.world.registry.connections in
      let sound : IsSound conn (with_registry (listing conn session m.world.registry) m') = record {
        registered = listing-IsRegistered conn session m.world.registry v fresh;
        settled = ap (λ w. w.passed) same ∙ new.unpassed;
        life_or_death =
            inl (record { attached = same_signals m' _ a; owned = omega (arith, there) });
      } in
      let after = with_registry (listing conn session m.world.registry) m' in
      let state : custody conn after ≡ record { listed = true; copies_kept = 0 } =
        ground (arith, there, ap (λ w. w.kept) same, new.unkept) in
      rw (done, ap (λ w. w.registry) same, add_lem m.world.registry v.free)
        (life-fates p conn idle xs after sound ∙ ap (fates xs) state)

-- Neither the program nor the peer touches a pointer.
abbrev pub IsPlain : Happening → Type 0
IsPlain (fails code) = Unit {0}
IsPlain gets = Unit {0}
IsPlain completes = Unit {0}
IsPlain _ = ⊥

-- The connection ends: the peer leaves, or a slot of the program closes it.
abbrev pub IsEnd : Happening → Type 0
IsEnd leaves = Unit {0}
IsEnd quits = Unit {0}
IsEnd _ = ⊥

fates_end :
    (x : Happening) (ys : List Happening)
    → IsEnd x
    → fates (x ∷ ys) (record { listed = true; copies_kept = 0 }) ≡ none
fates_end leaves ys h = refl
fates_end quits ys h = refl
fates_end (fails code) ys h = absurd h
fates_end gets ys h = absurd h
fates_end completes ys h = absurd h
fates_end copies ys h = absurd h
fates_end drops ys h = absurd h

fates_plain :
    (xs ys : List Happening) (x : Happening)
    → All IsPlain xs
    → IsEnd x
    → fates (xs ++ x ∷ ys) (record { listed = true; copies_kept = 0 }) ≡ none
fates_plain [] ys x h e = fates_end x ys e
fates_plain (fails code ∷ xs) ys x h e = fates_plain xs ys x h.1 e
fates_plain (gets ∷ xs) ys x h e = fates_plain xs ys x h.1 e
fates_plain (completes ∷ xs) ys x h e = fates_plain xs ys x h.1 e
fates_plain (leaves ∷ xs) ys x h e = absurd h.0
fates_plain (quits ∷ xs) ys x h e = absurd h.0
fates_plain (copies ∷ xs) ys x h e = absurd h.0
fates_plain (drops ∷ xs) ys x h e = absurd h.0

map-eq-none {ℓ κ} :
    {A : Type ℓ} {B : Type κ} (f : A → B) (r : Option A) → Option.map f r ≡ none → r ≡ none
map-eq-none f none h = refl
map-eq-none f (some a) h = cc

module _ (p : Program) (conn session : ℕ) (idle : IsIdle p)
    (quiet : (s : Server) → p.on_connected conn s ≡ some s) where
  -- A server that is in order adds a connection that was just made, whose address is new, and the
  -- program takes no pointer to it: after any messages, errors and writes that complete, when the
  -- peer leaves, or when a message comes in and the program's slot closes the connection, the
  -- behaviour is undefined, whatever comes next. The program's other slots do nothing.
  pub admit_ends :
      (xs ys : List Happening) (x : Happening) (m : Store (Shared Server))
      → All IsPlain xs
      → IsEnd x
      → IsNew m
      → IsRegistered m.world.registry
      → NotIn conn m.world.registry.connections
      → (admit p conn session m >>= life p conn (xs ++ x ∷ ys)) ≡ none
  admit_ends xs ys x m h end new v fresh = map-eq-none (custody conn) _ (
      admit-fates p conn session idle quiet (xs ++ x ∷ ys) m new v fresh
      ∙ fates_plain xs ys x h end)
