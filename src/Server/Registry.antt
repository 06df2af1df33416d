-- ===== src/Server/Registry.antt =====
-- The connections of a server (server.cpp) against the history of its clients.
use mathlib.Core.Path.{subst}
use lnetlib.Base.{
  ℕ, ◌≡◌, refl, sym, ap, ◌∙◌, true, false, List, [], ◌∷◌, ◌++◌, map, Option, some, Bool-cases, ◌⊎◌,
  inl, inr,
}
use lnetlib.Bytes.{pos}
use lnetlib.Connection.Sending.{insert}
use lnetlib.Connection.Receiving.{erase}
use lnetlib.Server.State.{
  connected, disconnected, error, received, Server, Program, record_effect, emit_error, stop,
  server, get_connections, ThreadPolicy, one_per_connection, fixed_count,
}
use lnetlib.Server.Starting.{wait_next_connection, create_session, create_service_thread}
use lnetlib.Server.Accepting.{
  remove, add_connection, remove_connection, closed_slot, error_slot, received_slot,
  connected_handler,
}
use lnetlib.Server.Effects.{Returns, IsPolite}
use lnetlib.Server.Events.{
  Event, accepted, refused, closed, failed, got, stops, handle, run, NotIn, Distinct, without,
  after_event, live, IsFresh, AllFresh,
}
use lnetlib.Server.Roster.{
  remove-without, Distinct-without, Distinct-append, keys-insert, keys-erase,
}

-- Each connection is held once, with a session of its own, and the mutex is free.
pub record IsRegistered (s : Server) : Type 0 where
  pub paired : map (λ r. r.0) s.sessions ≡ s.connections
  pub distinct : Distinct s.connections
  pub free : s.locked ≡ false

policy_cases : (t : ThreadPolicy) → (t ≡ one_per_connection) ⊎ (t ≡ fixed_count)
policy_cases one_per_connection = inl refl
policy_cases fixed_count = inr refl

-- `r` succeeds, the connections are then `cs`, and all is in order.
abbrev Holds : List ℕ → Option Server → Type 0
Holds cs r = (s' : Server) × (r ≡ some s') × (s'.connections ≡ cs) × IsRegistered s'

module _ (p : Program) (polite : IsPolite p) where
  Same-Holds :
      (s : Server) (r : Option Server) → IsRegistered s → Returns s r → Holds s.connections r
  Same-Holds s r v (s', done, same) = (
    s',
    done,
    same.connections,
    record {
      paired = ap (map (λ r. r.0)) same.sessions ∙ v.paired ∙ sym same.connections;
      distinct = rw same.connections v.distinct;
      free = same.locked ∙ v.free;
    },
  )

  remove_connection-Holds :
      (conn : ℕ) (s : Server)
      → IsRegistered s
      → Holds (without conn s.connections) (remove_connection conn s)
  unfolding remove_connection
  remove_connection-Holds conn s v =
      let gone : remove conn s.connections ≡ without conn s.connections =
        remove-without conn s.connections v.distinct in
      (
        record s { connections = remove conn s.connections; sessions = erase conn s.sessions },
        rw v.free,
        gone,
        record {
          paired = keys-erase conn s.sessions ∙ ap (remove conn) v.paired;
          distinct = rw gone (Distinct-without conn s.connections v.distinct);
          free = v.free;
        },
      )

  closed_slot-Holds :
      (conn : ℕ) (s : Server)
      → IsRegistered s
      → Holds (without conn s.connections) (closed_slot p conn s)
  unfolding closed_slot
  closed_slot-Holds conn s v =
      let (s1, done, same, w) =
        Same-Holds (record_effect (disconnected conn) s) _
          (record { paired = v.paired; distinct = v.distinct; free = v.free })
          (polite.disconnected_polite conn _) in
      let (s2, done', gone, w') = remove_connection-Holds conn s1 w in
      (s2, rw done done', gone ∙ ap (without conn) same, w')

  add_connection-Holds :
      (conn session : ℕ) (s : Server)
      → IsRegistered s
      → NotIn conn s.connections
      → Holds (s.connections ++ conn ∷ []) (add_connection p conn session s)
  unfolding add_connection
  add_connection-Holds conn session s v fresh =
      let added : Server = record_effect (connected conn) (record s {
        locked = true;
        connections = s.connections ++ conn ∷ [];
        sessions = insert conn session s.sessions;
      }) in
      let (s1, done, same) = polite.connected_polite conn added in
      (
        record s1 { locked = false },
        rw (v.free, done),
        same.connections,
        record {
          paired =
              ap (map (λ r. r.0)) same.sessions
              ∙ keys-insert conn session s.sessions (rw v.paired fresh)
              ∙ ap (λ cs. cs ++ conn ∷ []) v.paired
              ∙ sym same.connections;
          distinct = rw same.connections (Distinct-append conn s.connections fresh v.distinct);
          free = refl;
        },
      )

  wait_next_connection-IsRegistered :
      (s : Server)
      → IsRegistered s
      → ((wait_next_connection s).connections ≡ s.connections)
        × IsRegistered (wait_next_connection s)
  unfolding wait_next_connection create_session create_service_thread
  wait_next_connection-IsRegistered s v = elim (policy_cases s.thread_policy) [
    | inl one ↦
        rw (one, wait_next_connection)
          (refl, record { paired = v.paired; distinct = v.distinct; free = v.free })
    | inr fixed ↦
        rw (fixed, wait_next_connection)
          (refl, record { paired = v.paired; distinct = v.distinct; free = v.free })
  ]

  stop-IsRegistered :
      (s : Server) → IsRegistered s → ((stop s).connections ≡ s.connections) × IsRegistered (stop s)
  unfolding stop
  stop-IsRegistered s v = elim (Bool-cases s.running) [
    | inl on ↦ rw on (refl, record { paired = v.paired; distinct = v.distinct; free = v.free })
    | inr off ↦ rw off (refl, record { paired = v.paired; distinct = v.distinct; free = v.free })
  ]

  handle-Holds :
      (x : Event) (s : Server)
      → IsRegistered s
      → IsFresh s.connections x
      → Holds (after_event s.connections x) (handle p x s)
  unfolding handle connected_handler error_slot received_slot emit_error
  handle-Holds (accepted session conn) s v fresh =
      let (s1, done, conns, w) = add_connection-Holds conn session s v fresh in
      let (same, w') = wait_next_connection-IsRegistered s1 w in
      (wait_next_connection s1, rw done, same ∙ conns, w')
  handle-Holds (refused session conn code) s v fresh =
      Same-Holds (record_effect (error conn (pos code)) s) _
        (record { paired = v.paired; distinct = v.distinct; free = v.free })
        (polite.error_polite conn (pos code) _)
  handle-Holds (closed conn) s v fresh = closed_slot-Holds conn s v
  handle-Holds (failed conn code) s v fresh =
      Same-Holds (record_effect (error (some conn) (pos code)) s) _
        (record { paired = v.paired; distinct = v.distinct; free = v.free })
        (polite.error_polite (some conn) (pos code) _)
  handle-Holds (got conn) s v fresh =
      Same-Holds (record_effect (received conn) s) _
        (record { paired = v.paired; distinct = v.distinct; free = v.free })
        (polite.received_polite conn _)
  handle-Holds stops s v fresh = let (same, w) = stop-IsRegistered s v in (stop s, refl, same, w)

  -- From a server whose connections are in order, any history of events returns, and afterwards the
  -- server holds exactly the clients that are connected by the history, once each, in the order in
  -- which they came, with one session for each, and the mutex is free. Each accepted connection
  -- must be a new object, and the program's slots must return and leave the connections alone.
  pub run-live :
      (xs : List Event) (s : Server)
      → IsRegistered s
      → AllFresh s.connections xs
      → (s' : Server) × (run p xs s ≡ some s')
        × (get_connections s' ≡ some (live s.connections xs))
        × IsRegistered s'
  unfolding run get_connections
  run-live [] s v fresh = (s, refl, rw v.free, v)
  run-live (x ∷ xs) s v fresh =
      let (s1, done, conns, w) = handle-Holds x s v fresh.0 in
      let (s2, done', there, w') =
        run-live xs s1 w (subst (λ cs. AllFresh cs xs) (sym conns) fresh.1) in
      (s2, rw done done', there ∙ ap (λ cs. some (live cs xs)) conns, w')

-- A server that was just made is in order.
pub server-IsRegistered : IsRegistered server
unfolding server
server-IsRegistered = record { paired = refl; distinct = tt; free = refl }
