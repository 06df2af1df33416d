-- ===== src/Server/Owners.antt =====
-- A server owns its connections (server.cpp): its list has a pointer to each, and so has the map of
-- their sessions. What becomes of a connection when the server forgets it.
use lnetlib.Base.{
  ℕ, ◌+◌, ◌<◌, ◌≡◌, refl, ap, ◌∙◌, false, List, [], ◌∷◌, ◌++◌, map, Option, none, some, arith, ◌==◌,
  if◌then◌else◌,
}
use lnetlib.Bytes.{pos}
use lnetlib.Signal.State.{Store}
use lnetlib.Connection.Receiving.{erase}
use lnetlib.Connection.Owners.{closed, error, received, Shared, Slots, with_registry, emit_shared}
use lnetlib.Connection.Attaching.{IsAttached}
use lnetlib.Connection.Lifespan.{emit_shared-heard}
use lnetlib.Connection.Shutting.{closing, emit_shared-closing}
use lnetlib.Server.State
use lnetlib.Server.State.{Server, Program, record_effect, emit_error}
use lnetlib.Server.Accepting.{remove, remove_connection, closed_slot, error_slot, received_slot}
use lnetlib.Server.Events.{NotIn, Distinct}
use lnetlib.Server.Roster.{keys-erase, remove-without, Distinct-without}
use lnetlib.Server.Registry.{IsRegistered}
use lnetlib.Server.Hosting.{IsIdle}

-- How many pointers to it a list has.
abbrev pub count : ℕ → List ℕ → ℕ
count conn [] = 0
count conn (c ∷ cs) = (if c == conn then 1 else 0) + count conn cs

-- The server as the owner of one of its connections; `act` is what the program's slot for a message
-- does with the connection.
unfoldable pub server_slots :
    Program → ℕ → (Store (Shared Server) → Option (Store (Shared Server))) → Slots Server
server_slots p conn act = record {
  owners = λ s. count conn s.connections + count conn (map (λ r. r.0) s.sessions);
  on_closed = closed_slot p conn;
  on_error = error_slot p conn;
  on_received = received_slot p conn;
  act = act;
}

count-NotIn : (conn : ℕ) (cs : List ℕ) → NotIn conn cs → count conn cs ≡ 0
count-NotIn conn [] h = refl
count-NotIn conn (c ∷ cs) h = ground (arith, count-NotIn conn cs h.1)

pub count-remove : (conn : ℕ) (cs : List ℕ) → Distinct cs → count conn (remove conn cs) ≡ 0
unfolding remove
count-remove conn [] h = refl
count-remove conn (c ∷ cs) h = ground (arith, count-remove conn cs h.1, count-NotIn conn cs)

-- The server without the connection.
abbrev pub forgotten : ℕ → Server → Server
forgotten conn s = record s {
  connections = remove conn s.connections;
  sessions = erase conn s.sessions;
  trace = s.trace ++ State.disconnected conn ∷ [];
}

pub forgotten-IsRegistered :
    (conn : ℕ) (s : Server) → IsRegistered s → IsRegistered (forgotten conn s)
forgotten-IsRegistered conn s v = record {
  paired = keys-erase conn s.sessions ∙ ap (remove conn) v.paired;
  distinct =
      rw (remove-without conn s.connections v.distinct)
        (Distinct-without conn s.connections v.distinct);
  free = v.free;
}

module _ (p : Program) (conn : ℕ) (idle : IsIdle p) where
  closed_lem : (s : Server) → s.locked ≡ false → closed_slot p conn s ≡ some (forgotten conn s)
  unfolding closed_slot remove_connection
  closed_lem s free = rw (idle.disconnected_idle, free) refl

  -- A server that has forgotten the connection has no pointer to it.
  none_left :
      (n : ℕ) (s : Server)
      → IsRegistered s
      → (n
            + (count conn (remove conn s.connections)
                + count conn (map (λ r. r.0) (erase conn s.sessions)))
          == 0)
        ≡ (n == 0)
  none_left n s v =
      rw (keys-erase conn s.sessions, v.paired, count-remove conn s.connections v.distinct)
        (ground arith)

  -- The same where the peer leaves.
  pub closed-forgotten :
      (m : Store (Shared Server))
      → IsAttached m
      → IsRegistered m.world.registry
      → emit_shared (server_slots p conn some) closed m ≡ (
          if m.world.kept + m.world.passed == 0
          then none
          else some (with_registry (forgotten conn m.world.registry) m))
  unfolding server_slots
  closed-forgotten m a v =
      rw
        (
          emit_shared-heard (server_slots p conn some) closed m a (λ n. refl),
          closed_lem m.world.registry v.free,
          none_left (m.world.kept + m.world.passed) m.world.registry v,
        )
        refl

  -- A server that is in order gets a message for a connection, and the program's slot closes the
  -- connection there: the server forgets it and emits `received`, then `disconnected`, and all
  -- goes on, if the program or a running call has one pointer more to the connection; otherwise
  -- the behaviour is undefined, since the connection is destroyed while its signal emits. The
  -- program's other slots do nothing.
  pub closing-forgotten :
      (m : Store (Shared Server))
      → IsAttached m
      → IsRegistered m.world.registry
      → emit_shared (closing (server_slots p conn some)) received m ≡ (
          if m.world.kept + m.world.passed == 0
          then none
          else some (record m {
            world = record m.world {
              is_open = false;
              registry = forgotten conn (record_effect (State.received conn) m.world.registry);
            };
          }))
  unfolding server_slots received_slot
  closing-forgotten m a v =
      rw
        (
          emit_shared-closing (server_slots p conn some) m a,
          idle.received_idle,
          closed_lem (record_effect (State.received conn) m.world.registry) v.free,
          none_left (m.world.kept + m.world.passed) m.world.registry v,
        )
        refl

  some_left :
      (n : ℕ) (s : Server)
      → 0 < n + count conn s.connections
      → (n + (count conn s.connections + count conn (map (λ r. r.0) s.sessions)) == 0) ≡ false
  some_left n s h = ground arith

  -- An emission of `error` or `received` while somebody has a pointer to the connection.
  pub error-received_owned :
      (code : ℕ) (m : Store (Shared Server))
      → IsAttached m
      → 0 < m.world.kept + m.world.passed + count conn m.world.registry.connections
      → (emit_shared (server_slots p conn some) (error code) m
          ≡ some (
              with_registry
                (record_effect (State.error (some conn) (pos code)) m.world.registry)
                m))
        × (emit_shared (server_slots p conn some) received m
            ≡ some (with_registry (record_effect (State.received conn) m.world.registry) m))
  unfolding server_slots error_slot received_slot emit_error
  error-received_owned code m a h =
      let kept = some_left (m.world.kept + m.world.passed) m.world.registry h in
      (
        rw
            (
              emit_shared-heard (server_slots p conn some) (error code) m a (λ n. refl),
              idle.error_idle,
              kept,
            )
            refl,
        rw
            (
              emit_shared-heard (server_slots p conn some) received m a (λ n. refl),
              idle.received_idle,
              kept,
            )
            refl,
      )
