-- ===== src/Server/Starting.antt =====
-- How a server starts and how it gets its threads (server.cpp).
use lnetlib.Base.{ℕ, zero, suc, Bool, true, false, List, [], ◌∷◌, Option, none, some, if◌then◌else◌}
use lnetlib.Bytes.{ℤ, pos, negsuc}
use lnetlib.Server.State.{
  ThreadPolicy, one_per_connection, fixed_count, ssl, non_ssl, session_started, thread_started,
  service_ran, Server, Program, record_effect, emit_error,
}

unfoldable pub create_service_thread : Server → Server
create_service_thread s = record_effect thread_started s

unfoldable pub create_service_threads : ℕ → Server → Server
create_service_threads zero s = s
create_service_threads (suc n) s = create_service_threads n (create_service_thread s)

abbrev pub is_minus_one : ℤ → Bool
is_minus_one (negsuc zero) = true
is_minus_one _ = false

-- The loop over the threads, or the service on the calling thread where the count is not positive.
unfoldable pub run_threads : ℤ → Server → Server
run_threads (pos (suc n)) s = create_service_threads (suc n) s
run_threads (pos zero) s = record_effect service_ran s
run_threads (negsuc n) s = record_effect service_ran s

-- A count of -1 asks for `hardware` threads, what std::thread::hardware_concurrency() gives as an
-- int32_t; and if that is -1, for two.
abbrev pub resolve_count : ℤ → ℤ → ℤ
resolve_count hardware count =
    if is_minus_one count then (if is_minus_one hardware then pos 2 else hardware) else count

unfoldable pub init_service_threads : ℤ → Server → Server
init_service_threads hardware s =
    let count = resolve_count hardware s.thread_count in
    run_threads count (record s { thread_count = count })

-- A session of the kind that the encryption object asks for waits for a connection.
unfoldable pub create_session : Server → Server
create_session s = record_effect (session_started (if s.encryption_enabled then ssl else non_ssl)) s

-- The threads for the first connection.
unfoldable pub first_threads : ThreadPolicy → ℤ → Server → Server
first_threads fixed_count hardware s = init_service_threads hardware s
first_threads one_per_connection hardware s = create_service_thread s

unfoldable pub wait_first_connection : ℤ → Server → Server
wait_first_connection hardware s = first_threads s.thread_policy hardware (create_session s)

unfoldable pub wait_next_connection : Server → Server
wait_next_connection s = elim s.thread_policy [
  | fixed_count ↦ create_session s
  | one_per_connection ↦ create_service_thread (create_session s)
]

-- What `start` meets: the code by which the address is refused, or the acceptor, if one is.
pub record Surroundings : Type 0 where
  pub hardware : ℤ
  pub address_error : Option ℕ
  pub acceptor_error : Option ℕ

-- `thrown`: the exception leaves `start`, with the server as it was.
pub data Started : Type 0 where
  returned : Server → Started
  thrown : ℕ → Started
  stuck : Started

abbrev pub returned_by : Option Server → Started
returned_by none = stuck
returned_by (some s) = returned s

-- The address, the acceptor and the first session.
unfoldable pub open_acceptor : Program → Option ℕ → Option ℕ → ℤ → Server → Started
open_acceptor p (some code) acceptor hardware s = thrown code
open_acceptor p none (some code) hardware s = returned_by (emit_error p none (pos code) s)
open_acceptor p none none hardware s =
    returned (wait_first_connection hardware (record s { listening = true; running = true }))

-- A pending error of the encryption object is reported with the code -1.
unfoldable pub start_checked : Program → Surroundings → List ℕ → Server → Started
start_checked p around [] s =
    open_acceptor p around.address_error around.acceptor_error around.hardware s
start_checked p around (_ ∷ _) s = returned_by (emit_error p none (negsuc 0) s)

unfoldable pub start : Program → Surroundings → Server → Started
start p around s = if s.running then returned s else start_checked p around s.last_error s
