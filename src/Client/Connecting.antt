-- ===== src/Client/Connecting.antt =====
-- client::connect, try_connect, create_session, connected_handler and the slots that it connects to
-- the connection (client.cpp).
use lnetlib.Base.{ℕ, Bool, true, false, List, [], ◌∷◌, Option, none, some, ◌==◌, if◌then◌else◌}
use lnetlib.Bytes.{pos, negsuc}
use lnetlib.Server.State.{SessionKind, ssl, non_ssl}
use lnetlib.Client.State.{
  Signal, refused, connected, disconnected, error, received, session_started, thread_started,
  Client, Program, record_effect, emit,
}

-- What a call leaves: it returns, or an exception leaves it, or a slot never returns.
pub data Outcome : Type 0 where
  returned : Client → Outcome
  thrown : Client → Outcome
  blocked : Outcome

abbrev pub outcome : Option Client → Outcome
outcome none = blocked
outcome (some c) = returned c

abbrev pub session_kind : Bool → SessionKind
session_kind true = ssl
session_kind false = non_ssl

-- The new session has the address `session`.
unfoldable pub create_session : ℕ → Client → Client
create_session session c =
    record_effect (session_started (session_kind c.encryption_enabled) session) c

unfoldable pub try_connect : ℕ → Client → Client
try_connect session c = record_effect thread_started (create_session session c)

abbrev pub resolved : Bool → ℕ → Client → Outcome
resolved true session c = returned (try_connect session c)
resolved false session c = thrown c

abbrev pub check_encryption : Program → Bool → ℕ → List ℕ → Client → Outcome
check_encryption p found session [] c = resolved found session (record c { running = true })
check_encryption p found session (b ∷ bs) c = outcome (emit p (error (negsuc 0)) c)

-- `found`: whether the resolver finds the host; otherwise it throws.
unfoldable pub connect : Program → Bool → ℕ → Client → Outcome
connect p found session c =
    if c.running then returned c else check_encryption p found session c.last_error c

module _ (connection_refused : ℕ) where
  -- `error` is given the code, and a text that is not modelled.
  abbrev pub failure_signal : ℕ → Signal
  failure_signal code = if code == connection_refused then refused else error (pos code)

  unfoldable pub connected_handler : Program → ℕ → Option ℕ → Option ℕ → Client → Option Client
  connected_handler p session conn (some code) c = emit p (failure_signal code) c
  connected_handler p session conn none c =
      emit p connected (record c { connection = conn; session = some session })

-- The slots that `connected_handler` connects to the signals of the connection.
unfoldable pub closed_slot : Program → Client → Option Client
closed_slot p c = emit p disconnected c

unfoldable pub error_slot : Program → ℕ → Client → Option Client
error_slot p code c = emit p (error (pos code)) c

unfoldable pub received_slot : Program → ℕ → Client → Option Client
received_slot p stream c = emit p (received stream) c
