-- ===== src/Server/Launch.antt =====
-- start, stop and the thread policies of server.cpp.
use lnetlib.Base.{
  ℕ, zero, suc, ◌+◌, ◌≡◌, refl, sym, ap, ◌∙◌, true, false, List, [], ◌∷◌, ◌++◌, none, some, arith,
  if◌then◌else◌, Bool-cases, inl, inr,
}
use lnetlib.Bytes.{ℤ, pos, negsuc}
use lnetlib.Connection.Sending.{insert}
use lnetlib.Server.State.{
  ThreadPolicy, one_per_connection, fixed_count, ssl, non_ssl, Effect, session_started,
  thread_started, service_ran, connected, error, Server, Program, record_effect, emit_error,
  get_connections, set_thread_policy, server,
}
use lnetlib.Server.Starting.{
  create_session, create_service_thread, create_service_threads, run_threads, resolve_count,
  first_threads, open_acceptor, start_checked, init_service_threads, wait_first_connection,
  Surroundings, returned, thrown, returned_by, start,
}
use lnetlib.Server.Accepting.{add_connection}
use lnetlib.Server.Effects.{is_session, is_thread, tally-append, started, threads}
use lnetlib.Server.Listener.{IsListening}

create_service_threads-counts :
    (n : ℕ) (s : Server)
    → (started (create_service_threads n s) ≡ started s)
      × (threads (create_service_threads n s) ≡ threads s + n)
      × ((create_service_threads n s).thread_policy ≡ s.thread_policy)
unfolding create_service_threads create_service_thread
create_service_threads-counts zero s = (refl, omega arith, refl)
create_service_threads-counts (suc n) s =
    let (a, b, c) = create_service_threads-counts n (record_effect thread_started s) in
    (
      omega (arith, a, tally-append is_session s.trace (thread_started ∷ [])),
      omega (arith, b, tally-append is_thread s.trace (thread_started ∷ [])),
      c,
    )

-- How many threads a policy asks for.
abbrev pub at_least_zero : ℤ → ℕ
at_least_zero (pos n) = n
at_least_zero (negsuc n) = 0

abbrev pub wanted_threads : ThreadPolicy → ℤ → ℤ → ℕ
wanted_threads one_per_connection hardware count = 1
wanted_threads fixed_count hardware count = at_least_zero (resolve_count hardware count)

run_threads-counts :
    (n : ℤ) (s : Server)
    → (started (run_threads n s) ≡ started s)
      × (threads (run_threads n s) ≡ threads s + at_least_zero n)
      × ((run_threads n s).thread_policy ≡ s.thread_policy)
unfolding run_threads
run_threads-counts (pos zero) s =
    (simp tally-append (omega arith), simp tally-append (omega arith), refl)
run_threads-counts (pos (suc n)) s = create_service_threads-counts (suc n) s
run_threads-counts (negsuc n) s =
    (simp tally-append (omega arith), simp tally-append (omega arith), refl)

first_threads-counts :
    (t : ThreadPolicy) (hardware : ℤ) (s : Server)
    → (started (first_threads t hardware s) ≡ started s)
      × (threads (first_threads t hardware s)
          ≡ threads s + wanted_threads t hardware s.thread_count)
      × ((first_threads t hardware s).thread_policy ≡ s.thread_policy)
unfolding first_threads init_service_threads create_service_thread
first_threads-counts one_per_connection hardware s =
    (simp tally-append (omega arith), simp tally-append (omega arith), refl)
first_threads-counts fixed_count hardware s =
    let count : ℤ = resolve_count hardware s.thread_count in
    run_threads-counts count (record s { thread_count = count })

wait_first_connection-counts :
    (hardware : ℤ) (s : Server)
    → (started (wait_first_connection hardware s) ≡ started s + 1)
      × (threads (wait_first_connection hardware s)
          ≡ threads s + wanted_threads s.thread_policy hardware s.thread_count)
      × ((wait_first_connection hardware s).thread_policy ≡ s.thread_policy)
unfolding wait_first_connection create_session
wait_first_connection-counts hardware s =
    let x : Effect = session_started (if s.encryption_enabled then ssl else non_ssl) in
    let (a, b, c) = first_threads-counts s.thread_policy hardware (record_effect x s) in
    (
      omega (arith, a, tally-append is_session s.trace (x ∷ [])),
      omega (arith, b, tally-append is_thread s.trace (x ∷ [])),
      c,
    )

pub start_counts :
    (p : Program) (around : Surroundings) (s : Server)
    → s.running ≡ false
    → s.last_error ≡ []
    → around.address_error ≡ none
    → around.acceptor_error ≡ none
    → (s' : Server) × (start p around s ≡ returned s')
      × (started s' ≡ started s + 1)
      × (threads s' ≡ threads s + wanted_threads s.thread_policy around.hardware s.thread_count)
      × (s'.thread_policy ≡ s.thread_policy)
unfolding start start_checked open_acceptor
start_counts p around s idle no_error address acceptor =
    let open_server : Server = record s { listening = true; running = true } in
    let (a, b, c) = wait_first_connection-counts around.hardware open_server in
    (
      wait_first_connection around.hardware open_server,
      simp (idle, no_error, address, acceptor),
      a,
      b,
      c,
    )

-- A new server that gets an address and an acceptor listens after `start`, whatever thread policy
-- and count it was given: one session waits, and with a thread for each connection there is one
-- thread.
pub start-IsListening :
    (p : Program) (around : Surroundings) (policy : ThreadPolicy) (count : ℤ)
    → around.address_error ≡ none
    → around.acceptor_error ≡ none
    → (s' : Server) × (start p around (set_thread_policy server policy count) ≡ returned s')
      × IsListening (record { host = s'; finished = 0; failures = 0 })
unfolding server set_thread_policy
start-IsListening p around policy count address acceptor =
    let (s', done, a, b, c) =
      start_counts p around (set_thread_policy server policy count) refl refl address acceptor in
    (
      s',
      done,
      record {
        sane = omega (arith, a);
        waiting = omega (arith, a);
        served = λ one.
            let is : policy ≡ one_per_connection = sym c ∙ one in
            let one_thread : wanted_threads policy around.hardware count ≡ 1 = rw is refl in
            omega (arith, a, b, one_thread);
      },
    )

pub start_idle :
    (p : Program) (around : Surroundings) (s : Server)
    → s.running ≡ false
    → start p around s ≡ start_checked p around s.last_error s
unfolding start
start_idle p around s off =
    ap (λ r. if r then returned s else start_checked p around s.last_error s) off

-- `start` on a server with a pending encryption error, on a running one, and where the acceptor
-- cannot be opened: nothing is started, and a running server is left as it was.
pub start_refused :
    (p : Program) (around : Surroundings) (s : Server) (b : ℕ) (bs : List ℕ) (code : ℕ)
    → (s.running ≡ true → start p around s ≡ returned s)
      × (s.running ≡ false
          → s.last_error ≡ b ∷ bs
          → start p around s
            ≡ returned_by (p.on_error none (negsuc 0) (record_effect (error none (negsuc 0)) s)))
      × (s.running ≡ false
          → s.last_error ≡ []
          → around.address_error ≡ none
          → around.acceptor_error ≡ some code
          → start p around s
            ≡ returned_by (p.on_error none (pos code) (record_effect (error none (pos code)) s)))
      × (s.running ≡ false
          → s.last_error ≡ []
          → around.address_error ≡ some code
          → start p around s ≡ thrown code)
unfolding start start_checked open_acceptor emit_error
start_refused p around s b bs code = (
  λ on. simp on,
  λ off pending. start_idle p around s off ∙ ap (λ l. start_checked p around l s) pending,
  λ off fine address acceptor.
      start_idle p around s off
      ∙ ap (λ l. start_checked p around l s) fine
      ∙ ap (λ a. open_acceptor p a around.acceptor_error around.hardware s) address
      ∙ ap (λ a. open_acceptor p none a around.hardware s) acceptor,
  λ off fine address.
      start_idle p around s off
      ∙ ap (λ l. start_checked p around l s) fine
      ∙ ap (λ a. open_acceptor p a around.acceptor_error around.hardware s) address,
)

-- A count of -1 is meant to give two threads where the hardware does not tell. The hardware's
-- answer is then 0, and the service runs on the calling thread instead, so that `start` does not
-- come back.
pub init_service_threads_unknown :
    (s : Server)
    → s.thread_count ≡ negsuc 0
    → init_service_threads (pos 0) s ≡ record_effect service_ran (record s { thread_count = pos 0 })
unfolding init_service_threads run_threads
init_service_threads_unknown s h = simp h

-- If the program's slot for `connected` does not return on a server that cannot give its
-- connections, as is so for a slot that asks for them, then adding a connection never returns, on
-- any server: the mutex is held while `connected` is emitted.
pub add_connection_stuck :
    (p : Program) (conn session : ℕ) (s : Server)
    → ((c : ℕ) (t : Server) → get_connections t ≡ none → p.on_connected c t ≡ none)
    → add_connection p conn session s ≡ none
unfolding add_connection get_connections
add_connection_stuck p conn session s asks = elim (Bool-cases s.locked) [
  | inl held ↦ simp held
  | inr free ↦
      let added : Server = record_effect (connected conn) (record s {
        locked = true;
        connections = s.connections ++ conn ∷ [];
        sessions = insert conn session s.sessions;
      }) in
      rw (free, asks conn added refl)
]
