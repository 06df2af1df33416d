-- ===== src/Connection/State.antt =====
-- The state of a connection, what it asks of its socket and its signals, and its error handling
-- (connection.h and connection.cpp). Each operation that the source runs under the connection's
-- mutex is one step here.
use lnetlib.Base.{
  ℕ, Bool, true, false, List, [], ◌∷◌, ◌++◌, Option, none, some, ◌>>=◌, ◌==◌, if◌then◌else◌,
}
use lnetlib.Streambuf.{Streambuf}
use lnetlib.Stream.IStream.{IStream}

-- `struct package`: the two buffers and the views of their bytes that are written in one go.
pub record Package (B : Streambuf) : Type 0 where
  pub buffer : List (List ℕ)
  pub size_buffer : B.Buffer
  pub data_buffer : B.Buffer

-- What a received stream was given: its head words and the buffer with the rest of the message.
pub record Delivery (B : Streambuf) : Type 0 where
  pub command : ℕ
  pub uid : ℕ
  pub body : B.Buffer

pub data ReadKind : Type 0 where
  size body : ReadKind

-- A call of the socket, an emission of one of the three signals, or a call of a response callback;
-- `K` names the callbacks of the program.
pub data Effect (B : Streambuf) (K : Type 0) : Type 0 where
  async_read : ReadKind → ℕ → Effect B K
  async_write : Package B → Effect B K
  socket_closed : Effect B K
  closed : Effect B K
  error : ℕ → Effect B K
  received : Delivery B → Effect B K
  called : K → Delivery B → Effect B K
  thrown : ℕ → Effect B K

-- `trace`: all effects so far, oldest first.
pub record Connection (B : Streambuf) (K : Type 0) : Type 0 where
  pub is_open : Bool
  pub socket_locked : Bool
  pub packages : List (Package B)
  pub uid_counter : ℕ
  pub callbacks : List (ℕ × K)
  pub trace : List (Effect B K)

-- What the program's slots and callbacks do with the connection when they are called, and the
-- value of `asio::error::operation_aborted`. `none`: undefined behaviour.
pub record Program (B : Streambuf) (K : Type 0) : Type 0 where
  pub on_closed : Connection B K → Option (Connection B K)
  pub on_error : ℕ → Connection B K → Option (Connection B K)
  pub on_received : IStream B (Connection B K) → Connection B K → Option (Connection B K)
  pub on_callback : K → IStream B (Connection B K) → Connection B K → Option (Connection B K)
  pub operation_aborted : ℕ

-- ENOENT and SSL_R_SHORT_READ.
abbrev pub no_such_file_or_directory : ℕ
no_such_file_or_directory = 2

abbrev pub ssl_short_read : ℕ
ssl_short_read = 335544539

module _ {B : Streambuf} {K : Type 0} where
  abbrev pub record_effect : Effect B K → Connection B K → Connection B K
  record_effect x c = record c { trace = c.trace ++ x ∷ [] }

  unfoldable pub emit_closed : Program B K → Connection B K → Option (Connection B K)
  emit_closed p c = p.on_closed (record_effect closed c)

  unfoldable pub emit_error : Program B K → ℕ → Connection B K → Option (Connection B K)
  emit_error p code c = p.on_error code (record_effect (error code) c)

  -- `err` is absent on success. The result says whether the handler goes on.
  unfoldable pub check_error :
      Program B K → Connection B K → Option ℕ → Option (Bool × Connection B K)
  check_error p c none = some (true, c)
  check_error p c (some code) =
      if code == p.operation_aborted
      then some (false, c)
      else if code == no_such_file_or_directory
      then (emit_closed p c >>= λ c'. some (false, c'))
      else if code == ssl_short_read
      then (emit_closed p c >>= λ c'. some (false, c'))
      else (emit_error p code c >>= λ c'. some (false, c'))

  unfoldable pub wait_package : Connection B K → Connection B K
  wait_package c = record_effect (async_read size 8) c

  unfoldable pub wait_package_body : Connection B K → ℕ → Connection B K
  wait_package_body c n = record_effect (async_read body n) c

  -- The constructor over an open socket.
  unfoldable pub connection : Connection B K
  unfolding wait_package
  connection = wait_package (record {
    is_open = true;
    socket_locked = false;
    packages = [];
    uid_counter = 0;
    callbacks = [];
    trace = [];
  })

  -- `failure`: the code of the exception by which the socket's shutdown leaves, if it does.
  unfoldable pub close : Program B K → Connection B K → Option ℕ → Option (Connection B K)
  close p c none = emit_closed p (record (record_effect socket_closed c) { is_open = false })
  close p c (some code) = some (record_effect (thrown code) c)
