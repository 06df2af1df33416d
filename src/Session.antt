-- ===== src/Session.antt =====
-- The sessions that establish a connection, and the sockets beneath it (client_session*.h/.cpp,
-- server_session*.h/.cpp and socket*.h/.cpp).
pub mod Socket
pub mod State
pub mod Server
pub mod Client
pub mod History
