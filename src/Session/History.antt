-- ===== src/Session/History.antt =====
-- The whole history of a session, and what closing a socket comes to (server_session*.cpp,
-- client_session*.cpp and socket*.cpp).
use lnetlib.Base.{
  ℕ, ◌≡◌, refl, Bool, true, false, List, [], ◌∷◌, ◌++◌, Option, none, some, ◌⊎◌, append_assoc,
}
use lnetlib.Encryption.Options.{Tls, Encryption, verify_certificate}
use lnetlib.Session.Socket.{
  shuts_down, closes, ShutdownType, shutdown_receive, shutdown_both, Closing, closed, threw, Socket,
  socket_ssl, socket_non_ssl, is_open, close, tcp,
}
use lnetlib.Session.State.{
  over_ssl, over_non_ssl, Role, as_server, as_client, Action, sets_mode, sets_callback, establishes,
  handshakes, connected, SslSession, NonSslSession, made,
}
use lnetlib.Session.Server.{
  server_session_ssl, server_ssl_start, server_ssl_accept_handler, server_ssl_handshake_handler,
  server_session_non_ssl, server_non_ssl_start, server_non_ssl_accept_handler,
}
use lnetlib.Session.Client.{
  client_session_ssl, client_ssl_start, client_ssl_connect_handler, client_ssl_handshake_handler,
  client_session_non_ssl, client_non_ssl_start, client_non_ssl_connect_handler,
}

-- The operation of a session that is pending, if any. The asio library calls the handler of an
-- operation once.
pub data Stage : Type 0 where
  establishing handshaking finished : Stage

abbrev pub after_establishing : Option ℕ → Stage
after_establishing none = handshaking
after_establishing (some code) = finished

-- The constructor and the member functions of the two classes, as they are by the role.
module _ (T : Tls) where
  abbrev pub ssl_started : Role → Encryption T → SslSession T
  ssl_started as_server e = server_ssl_start e (server_session_ssl T)
  ssl_started as_client e = client_ssl_start e (client_session_ssl T)

  abbrev pub ssl_established : Role → Option ℕ → SslSession T → SslSession T
  ssl_established as_server err s = server_ssl_accept_handler err s
  ssl_established as_client err s = client_ssl_connect_handler err s

  abbrev pub ssl_handshaken : Role → Option ℕ → SslSession T → SslSession T
  ssl_handshaken as_server err s = server_ssl_handshake_handler err s
  ssl_handshaken as_client err s = client_ssl_handshake_handler err s

  -- The sessions that an encryption object and a role lead to.
  pub data Reach (r : Role) (e : Encryption T) : Stage → SslSession T → Type 0 where
    starts : Reach r e establishing (ssl_started r e)
    establishes_with :
        {s : SslSession T}
        → (err : Option ℕ) → Reach r e establishing s
        → Reach r e (after_establishing err) (ssl_established r err s)
    handshakes_with :
        {s : SslSession T}
        → (err : Option ℕ) → Reach r e handshaking s
        → Reach r e finished (ssl_handshaken r err s)

-- How a session begins: with its verification.
abbrev pub beginning : Role → ℕ → List Action
beginning r mode = sets_mode mode ∷ sets_callback ∷ establishes r ∷ []

-- What a session has done at each stage. It tells its owner once, at the end: an error and no
-- connection when it is not established, and otherwise what the handshake gives.
abbrev pub Done : Role → ℕ → Stage → List Action → Type 0
Done r mode establishing xs = xs ≡ beginning r mode
Done r mode handshaking xs = xs ≡ beginning r mode ++ handshakes r ∷ []
Done r mode finished xs =
    ((code : ℕ) × (xs ≡ beginning r mode ++ connected none (some code) ∷ []))
    ⊎ ((err : Option ℕ) × (xs
          ≡ beginning r mode ++ handshakes r ∷ connected (made over_ssl err) err ∷ []))

-- The verification of the options is set on the socket.
abbrev pub IsVerified : {T : Tls} → Encryption T → SslSession T → Type 0
IsVerified e s = (s.verify_mode ≡ e.verify_mode) × (s.verify_callback ≡ some verify_certificate)

-- The constructors and member functions of the two classes that do not encrypt.
abbrev pub non_ssl_finished : Role → Option ℕ → NonSslSession
non_ssl_finished as_server err =
    server_non_ssl_accept_handler err (server_non_ssl_start server_session_non_ssl)
non_ssl_finished as_client err =
    client_non_ssl_connect_handler err (client_non_ssl_start client_session_non_ssl)

-- A session that does not encrypt, a server's or a client's: it accepts or connects, and then emits
-- `connected` once, with a connection over plain TCP if and only if there is no error.
pub non_ssl_finished_lem :
    (r : Role) (err : Option ℕ)
    → (non_ssl_finished r err).actions ≡ establishes r ∷ connected (made over_non_ssl err) err ∷ []
unfolding server_non_ssl_accept_handler server_non_ssl_start server_session_non_ssl
    client_non_ssl_connect_handler client_non_ssl_start client_session_non_ssl
non_ssl_finished_lem as_server err = refl
non_ssl_finished_lem as_client err = refl

abbrev pub shutdown_type : Socket → ShutdownType
shutdown_type (socket_ssl t) = shutdown_receive
shutdown_type (socket_non_ssl t) = shutdown_both

-- What `close` leaves: a closed socket that was shut down before, or, by the exception, a socket
-- that was not closed at all.
abbrev pub Closed : Socket → Closing → Type 0
Closed s (closed t) =
    (t.opened ≡ false) × (t.asked ≡ (tcp s).asked ++ shuts_down (shutdown_type s) ∷ closes ∷ [])
Closed s (threw t) =
    (t.opened ≡ is_open s) × (t.asked ≡ (tcp s).asked ++ shuts_down (shutdown_type s) ∷ [])

-- Closing a socket of either kind shuts it down first, one over TLS only for receiving and a plain
-- one for both directions. If that succeeds the socket is closed; if it fails, an exception leaves
-- `close`, and the socket is as open as it was.
pub close-Closed : (ok : Bool) (s : Socket) → Closed s (close ok s)
unfolding close is_open
close-Closed true (socket_ssl t) = (refl, append_assoc t.asked _ _)
close-Closed true (socket_non_ssl t) = (refl, append_assoc t.asked _ _)
close-Closed false (socket_ssl t) = (refl, refl)
close-Closed false (socket_non_ssl t) = (refl, refl)
