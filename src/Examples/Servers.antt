-- ===== src/Examples/Servers.antt =====
-- The theorems on servers at concrete histories.
use lnetlib.Base.{◌≡◌, ◌>>=◌, refl, true, List, [], ◌∷◌, none, some, arith}
use lnetlib.Bytes.{pos}
use lnetlib.Connection.Sending.{insert}
use lnetlib.Server.State.{
  Server, Program, server, get_connections, record_effect, emit_error, connected, error, received,
  session_started, thread_started, non_ssl,
}
use lnetlib.Server.Starting.{
  Surroundings, create_session, create_service_thread, wait_next_connection,
}
use lnetlib.Server.Accepting.{add_connection, connected_handler, received_slot}
use lnetlib.Server.Effects.{started, IsPolite}
use lnetlib.Server.Events.{Event, accepted, refused, closed, got, handle, run}
use lnetlib.Server.Registry.{IsRegistered, run-live, server-IsRegistered}
use lnetlib.Server.Listener.{
  Listener, step, Reach, here, next, IsListening, Reach_waiting, Reach_deaf,
}

-- A program whose slots do nothing.
abbrev silent : Program
silent = record {
  on_connected = λ conn s. some s;
  on_disconnected = λ conn s. some s;
  on_error = λ conn code s. some s;
  on_received = λ conn s. some s;
}

silent-IsPolite : IsPolite silent
silent-IsPolite = record {
  connected_polite = λ conn s. (
    s,
    refl,
    record {
      connections = refl;
      sessions = refl;
      locked = refl;
      policy = refl;
      started_same = refl;
      threads_same = refl;
    },
  );
  disconnected_polite = λ conn s. (
    s,
    refl,
    record {
      connections = refl;
      sessions = refl;
      locked = refl;
      policy = refl;
      started_same = refl;
      threads_same = refl;
    },
  );
  error_polite = λ conn code s. (
    s,
    refl,
    record {
      connections = refl;
      sessions = refl;
      locked = refl;
      policy = refl;
      started_same = refl;
      threads_same = refl;
    },
  );
  received_polite = λ conn s. (
    s,
    refl,
    record {
      connections = refl;
      sessions = refl;
      locked = refl;
      policy = refl;
      started_same = refl;
      threads_same = refl;
    },
  );
}

-- Two clients come, one sends a message and leaves, and a third handshake fails.
abbrev history : List Event
history = accepted 50 1 ∷ accepted 51 2 ∷ got 1 ∷ closed 1 ∷ refused 52 none 5 ∷ []

run-live_example :
    (s' : Server) × (run silent history server ≡ some s')
    × (get_connections s' ≡ some (2 ∷ []))
    × IsRegistered s'
unfolding server
run-live_example =
    run-live silent silent-IsPolite history server server-IsRegistered
      (tt, (((λ e. omega (arith, e)), tt), (tt, (tt, (tt, tt)))))

abbrev around : Surroundings
around = record { hardware = pos 4; address_error = none; acceptor_error = none }

abbrev listening_server : Server
listening_server = record server {
  running = true;
  listening = true;
  trace = session_started non_ssl ∷ thread_started ∷ [];
}

abbrev listener : Listener
listener = record { host = listening_server; finished = 0; failures = 0 }

listener-IsListening : IsListening listener
listener-IsListening = record { sane = omega arith; waiting = refl; served = λ one. refl }

-- One client came; or its handshake failed.
abbrev served : Listener
served = record {
  host = create_service_thread (
      create_session (record server {
        running = true;
        listening = true;
        connections = 1 ∷ [];
        sessions = (1, 50) ∷ [];
        trace = session_started non_ssl ∷ thread_started ∷ connected 1 ∷ [];
      }));
  finished = 1;
  failures = 0;
}

one_served : Reach silent listener served
unfolding handle server connected_handler add_connection wait_next_connection insert
one_served = next here (step (accepted 50 1) _ (omega arith) refl)

abbrev broken : Listener
broken = record {
  host = record_effect (error none (pos 5)) listening_server;
  finished = 1;
  failures = 1;
}

one_broken : Reach silent listener broken
unfolding handle server connected_handler emit_error
one_broken = next here (step (refused 50 none 5) _ (omega arith) refl)

Reach_waiting_example : started served.host ≡ 2
Reach_waiting_example =
    Reach_waiting silent silent-IsPolite listener served listener-IsListening one_served refl

abbrev later : Listener
later = record broken { host = record_effect (received 1) broken.host }

one_message : Reach silent broken later
unfolding handle server received_slot
one_message = next here (step (got 1) _ (omega arith) refl)

broken-IsListening : IsListening broken
broken-IsListening = record { sane = omega arith; waiting = refl; served = λ one. refl }

Reach_deaf_example :
    (started later.host ≡ started broken.host)
    × (later.finished ≡ broken.finished)
    × (later.finished ≡ started later.host)
Reach_deaf_example =
    Reach_deaf silent silent-IsPolite broken later broken-IsListening (λ e. omega (arith, e))
      one_message

-- A slot that closes its connection, which asks the server for its connections.
abbrev asking : Program
asking = record silent { on_connected = λ conn s. get_connections s >>= λ cs. some s }
