-- ===== src/Session/Server.antt =====
-- The sessions of the server (server_session_ssl.cpp and server_session_non_ssl.cpp).
use lnetlib.Base.{ℕ, [], Option, none, some}
use lnetlib.Encryption.Options.{Tls, Encryption}
use lnetlib.Session.State.{
  over_ssl, over_non_ssl, as_server, establishes, handshakes, connected, SslSession, NonSslSession,
  made, act, perform, set_verify_mode, set_verify_callback,
}

unfoldable pub server_session_ssl : (T : Tls) → SslSession T
server_session_ssl T = record { verify_mode = 0; verify_callback = none; actions = [] }

module _ {T : Tls} where
  unfoldable pub server_ssl_start : Encryption T → SslSession T → SslSession T
  server_ssl_start e s = act (establishes as_server) (set_verify_callback (set_verify_mode e s))

  unfoldable pub server_ssl_accept_handler : Option ℕ → SslSession T → SslSession T
  server_ssl_accept_handler (some code) s = act (connected none (some code)) s
  server_ssl_accept_handler none s = act (handshakes as_server) s

  unfoldable pub server_ssl_handshake_handler : Option ℕ → SslSession T → SslSession T
  server_ssl_handshake_handler err s = act (connected (made over_ssl err) err) s

unfoldable pub server_session_non_ssl : NonSslSession
server_session_non_ssl = record { actions = [] }

unfoldable pub server_non_ssl_start : NonSslSession → NonSslSession
server_non_ssl_start s = perform (establishes as_server) s

unfoldable pub server_non_ssl_accept_handler : Option ℕ → NonSslSession → NonSslSession
server_non_ssl_accept_handler err s = perform (connected (made over_non_ssl err) err) s
