-- ===== src/Session/Client.antt =====
-- The sessions of the client (client_session_ssl.cpp and client_session_non_ssl.cpp).
use lnetlib.Base.{ℕ, [], Option, none, some}
use lnetlib.Encryption.Options.{Tls, Encryption}
use lnetlib.Session.State.{
  over_ssl, over_non_ssl, as_client, establishes, handshakes, connected, SslSession, NonSslSession,
  made, act, perform, set_verify_mode, set_verify_callback,
}

unfoldable pub client_session_ssl : (T : Tls) → SslSession T
client_session_ssl T = record { verify_mode = 0; verify_callback = none; actions = [] }

module _ {T : Tls} where
  unfoldable pub client_ssl_start : Encryption T → SslSession T → SslSession T
  client_ssl_start e s = act (establishes as_client) (set_verify_callback (set_verify_mode e s))

  unfoldable pub client_ssl_connect_handler : Option ℕ → SslSession T → SslSession T
  client_ssl_connect_handler (some code) s = act (connected none (some code)) s
  client_ssl_connect_handler none s = act (handshakes as_client) s

  unfoldable pub client_ssl_handshake_handler : Option ℕ → SslSession T → SslSession T
  client_ssl_handshake_handler err s = act (connected (made over_ssl err) err) s

unfoldable pub client_session_non_ssl : NonSslSession
client_session_non_ssl = record { actions = [] }

unfoldable pub client_non_ssl_start : NonSslSession → NonSslSession
client_non_ssl_start s = perform (establishes as_client) s

unfoldable pub client_non_ssl_connect_handler : Option ℕ → NonSslSession → NonSslSession
client_non_ssl_connect_handler err s = perform (connected (made over_non_ssl err) err) s
