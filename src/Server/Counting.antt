-- ===== src/Server/Counting.antt =====
-- What each event does to the numbers of sessions and threads that a server (server.cpp) has
-- started.
use mathlib.Core.Path.{subst}
use lnetlib.Base.{
  ℕ, ◌+◌, ◌≤◌, ◌≡◌, refl, ◌∙◌, true, false, [], ◌∷◌, ◌++◌, Option, some, arith, Bool-cases,
  Option-cases, inl, inr,
}
use lnetlib.Bytes.{pos}
use lnetlib.Connection.Sending.{insert}
use lnetlib.Server.State.{
  Effect, connected, disconnected, error, received, service_stopped, Server, Program, record_effect,
  emit_error, stop, ThreadPolicy, one_per_connection, fixed_count,
}
use lnetlib.Server.Starting.{wait_next_connection, create_session, create_service_thread}
use lnetlib.Server.Accepting.{
  add_connection, remove_connection, closed_slot, error_slot, received_slot, connected_handler,
}
use lnetlib.Server.Effects.{
  is_session, is_thread, tally-append, started, threads, Returns, IsPolite,
}
use lnetlib.Server.Events.{Event, accepted, refused, closed, failed, got, stops, handle}

abbrev pub finishes : Event → ℕ
finishes (accepted session conn) = 1
finishes (refused session conn code) = 1
finishes _ = 0

abbrev pub fails : Event → ℕ
fails (refused session conn code) = 1
fails _ = 0

pub fails-le : (x : Event) → fails x ≤ finishes x
fails-le (accepted session conn) = omega arith
fails-le (refused session conn code) = omega arith
fails-le (closed conn) = omega arith
fails-le (failed conn code) = omega arith
fails-le (got conn) = omega arith
fails-le stops = omega arith

-- What an event does to the counts of a server.
pub record Counted (x : Event) (s s' : Server) : Type 0 where
  pub sessions : started s' + fails x ≡ started s + finishes x
  pub policy : s'.thread_policy ≡ s.thread_policy
  pub fair : s.thread_policy ≡ one_per_connection → threads s' + started s ≡ started s' + threads s

-- Neither a session nor a thread is started.
record Neutral (s s' : Server) : Type 0 where
  sessions : started s' ≡ started s
  policy : s'.thread_policy ≡ s.thread_policy
  served : threads s' ≡ threads s

stop-Neutral : (s s' : Server) → some (stop s) ≡ some s' → Neutral s s'
unfolding stop
stop-Neutral s s' h = ground (
  arith,
  tally-append is_session s.trace (service_stopped ∷ []),
  tally-append is_thread s.trace (service_stopped ∷ []),
)

module _ (p : Program) (polite : IsPolite p) where
  wait_next_connection-Counted :
      (session conn : ℕ) (s : Server) → Counted (accepted session conn) s (wait_next_connection s)
  unfolding wait_next_connection create_session create_service_thread
  wait_next_connection-Counted session conn s = go s.thread_policy refl
    where
      go :
          (t : ThreadPolicy)
          → s.thread_policy ≡ t
          → Counted (accepted session conn) s (wait_next_connection s)
      go one_per_connection e =
          rw (e, wait_next_connection)
            (record {
              sessions = simp tally-append (omega arith);
              policy = e;
              fair = λ one. simp tally-append (omega arith);
            })
      go fixed_count e =
          rw (e, wait_next_connection)
            (record { sessions = simp tally-append (omega arith); policy = e; fair = λ one. cc })

  -- An effect that is neither a session nor a thread, and then a slot.
  slot-Neutral :
      (y : Effect) (s : Server) (r : Option Server) (s' : Server)
      → is_session y ≡ 0
      → is_thread y ≡ 0
      → Returns (record_effect y s) r
      → r ≡ some s'
      → Neutral s s'
  slot-Neutral y s r s' ns nt (s1, done, same) h =
      let is : s1 ≡ s' = ground (arith, done, h) in
      subst (Neutral s) is (record {
        sessions = omega (arith, same.started_same, tally-append is_session s.trace (y ∷ []));
        policy = same.policy;
        served = omega (arith, same.threads_same, tally-append is_thread s.trace (y ∷ []));
      })

  Neutral-Counted :
      (x : Event) (s s' : Server) → finishes x ≡ 0 → fails x ≡ 0 → Neutral s s' → Counted x s s'
  Neutral-Counted x s s' a b v = record {
    sessions = omega (arith, v.sessions);
    policy = v.policy;
    fair = λ one. omega (arith, v.sessions, v.served);
  }

  add_connection-Neutral :
      (conn session : ℕ) (s s' : Server) → add_connection p conn session s ≡ some s' → Neutral s s'
  unfolding add_connection
  add_connection-Neutral conn session s s' h = elim (Bool-cases s.locked) [
    | inl held ↦ cc (rw held at h)
    | inr free ↦
        let added : Server = record s {
          locked = true;
          connections = s.connections ++ conn ∷ [];
          sessions = insert conn session s.sessions;
        } in
        let (s1, done, same) =
          polite.connected_polite conn (record_effect (connected conn) added) in
        let v = slot-Neutral (connected conn) added _ s1 refl refl (s1, done, same) done in
        let is : record s1 { locked = false } ≡ s' = ground (arith, h, free, done) in
        subst (Neutral s) is
          (record { sessions = v.sessions; policy = v.policy; served = v.served })
  ]

  closed_slot-Neutral : (conn : ℕ) (s s' : Server) → closed_slot p conn s ≡ some s' → Neutral s s'
  unfolding closed_slot remove_connection
  closed_slot-Neutral conn s s' h =
      let (s1, done, same) =
        polite.disconnected_polite conn (record_effect (disconnected conn) s) in
      let v = slot-Neutral (disconnected conn) s _ s1 refl refl (s1, done, same) done in
      elim (Bool-cases s1.locked) [
        | inl held ↦ cc (rw (done, remove_connection, held) at h)
        | inr free ↦ ground (arith, h, free, done, v)
      ]

  pub handle-Counted : (x : Event) (s s' : Server) → handle p x s ≡ some s' → Counted x s s'
  unfolding handle connected_handler error_slot received_slot emit_error
  handle-Counted (accepted session conn) s s' h =
      elim (Option-cases (add_connection p conn session s)) [
        | inl stuck ↦ cc (rw stuck at h)
        | inr (s1, done) ↦
            let v = add_connection-Neutral conn session s s1 done in
            let w = wait_next_connection-Counted session conn s1 in
            let is : wait_next_connection s1 ≡ s' = ground (arith, rw done at h) in
            subst (Counted (accepted session conn) s) is (record {
              sessions = omega (arith, v.sessions, w.sessions);
              policy = w.policy ∙ v.policy;
              fair = λ one. omega (arith, v.sessions, v.served, w.fair (v.policy ∙ one));
            })
      ]
  handle-Counted (refused session conn code) s s' h =
      let v =
        slot-Neutral (error conn (pos code)) s _ s' refl refl
          (polite.error_polite conn (pos code) _) h in
      record {
        sessions = omega (arith, v.sessions);
        policy = v.policy;
        fair = λ one. omega (arith, v.sessions, v.served);
      }
  handle-Counted (closed conn) s s' h =
      Neutral-Counted _ s s' refl refl (closed_slot-Neutral conn s s' h)
  handle-Counted (failed conn code) s s' h = Neutral-Counted _ s s' refl refl (
      slot-Neutral (error (some conn) (pos code)) s _ s' refl refl
        (polite.error_polite (some conn) (pos code) _) h)
  handle-Counted (got conn) s s' h =
      Neutral-Counted _ s s' refl refl
        (slot-Neutral (received conn) s _ s' refl refl (polite.received_polite conn _) h)
  handle-Counted stops s s' h = Neutral-Counted _ s s' refl refl (stop-Neutral s s' h)
