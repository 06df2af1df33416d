-- ===== src/Session/State.antt =====
-- The state of a session, and what it asks of its socket and tells its owner (the classes of
-- server_session*.h and client_session*.h).
use lnetlib.Base.{ℕ, Bool, List, [], ◌∷◌, ◌++◌, Option, none, some}
use lnetlib.Encryption.Options.{Tls, Encryption, verify_certificate}

-- A connection, by the kind of socket it is made over.
pub data Connection : Type 0 where
  over_ssl over_non_ssl : Connection

-- A server's session accepts and is the server of the handshake, a client's session connects and is
-- its client.
pub data Role : Type 0 where
  as_server as_client : Role

-- What a session does: it sets the verification of its socket, starts to accept or connect, starts
-- the handshake, and emits its signal `connected` with the connection and the error.
pub data Action : Type 0 where
  sets_mode : ℕ → Action
  sets_callback : Action
  establishes : Role → Action
  handshakes : Role → Action
  connected : Option Connection → Option ℕ → Action

-- The verification that is set on the socket is a mode, and a callback which consults the shared
-- encryption object as it is when a certificate is checked.
pub record SslSession (T : Tls) : Type 0 where
  pub verify_mode : ℕ
  pub verify_callback : Option (Encryption T → Bool → T.Certificate → Bool)
  pub actions : List Action

pub record NonSslSession : Type 0 where
  pub actions : List Action

-- The connection that a handler makes: one over the session's socket when there is no error.
abbrev pub made : Connection → Option ℕ → Option Connection
made c none = some c
made c (some code) = none

module _ {T : Tls} where
  abbrev pub act : Action → SslSession T → SslSession T
  act x s = record s { actions = s.actions ++ x ∷ [] }

  -- The two calls on the socket with which `start` begins.
  unfoldable pub set_verify_mode : Encryption T → SslSession T → SslSession T
  set_verify_mode e s = act (sets_mode e.verify_mode) (record s { verify_mode = e.verify_mode })

  unfoldable pub set_verify_callback : SslSession T → SslSession T
  set_verify_callback s = act sets_callback (record s { verify_callback = some verify_certificate })

abbrev pub perform : Action → NonSslSession → NonSslSession
perform x s = record s { actions = s.actions ++ x ∷ [] }
