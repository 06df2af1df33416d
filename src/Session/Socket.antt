-- ===== src/Session/Socket.antt =====
-- The sockets of socket.h, socket_ssl and socket_non_ssl, over a TCP socket of the asio library.
use lnetlib.Base.{Bool, true, false, List, [], ◌∷◌, ◌++◌}

pub data ShutdownType : Type 0 where
  shutdown_receive shutdown_both : ShutdownType

-- Who handles the completion of an operation, which the caller of the socket passes on.
pub data Operation : Type 0 where
  shuts_down : ShutdownType → Operation
  closes reads writes : Operation

-- What the TCP socket is asked for, in order, and whether it is open.
pub record Tcp : Type 0 where
  pub opened : Bool
  pub asked : List Operation

abbrev pub ask : Operation → Tcp → Tcp
ask x t = record t { asked = t.asked ++ x ∷ [] }

-- A call of `close` returns, or the exception by which the shutdown fails leaves it.
pub data Closing : Type 0 where
  closed : Tcp → Closing
  threw : Tcp → Closing

-- The two classes that implement the interface `socket`.
pub data Socket : Type 0 where
  socket_ssl socket_non_ssl : Tcp → Socket

unfoldable pub is_open : Socket → Bool
is_open (socket_ssl t) = t.opened
is_open (socket_non_ssl t) = t.opened

-- `ok`: whether the operating system shuts the socket down (it does not on one that the peer has
-- left already). The library's `close` is a state change that does not fail here.
abbrev pub shut : Bool → ShutdownType → Tcp → Closing
shut true k t = closed (record (ask closes (ask (shuts_down k) t)) { opened = false })
shut false k t = threw (ask (shuts_down k) t)

unfoldable pub close : Bool → Socket → Closing
close ok (socket_ssl t) = shut ok shutdown_receive t
close ok (socket_non_ssl t) = shut ok shutdown_both t

abbrev pub tcp : Socket → Tcp
tcp (socket_ssl t) = t
tcp (socket_non_ssl t) = t

unfoldable pub async_read : Socket → Socket
async_read (socket_ssl t) = socket_ssl (ask reads t)
async_read (socket_non_ssl t) = socket_non_ssl (ask reads t)

unfoldable pub async_write : Socket → Socket
async_write (socket_ssl t) = socket_ssl (ask writes t)
async_write (socket_non_ssl t) = socket_non_ssl (ask writes t)
