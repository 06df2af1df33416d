-- ===== src/Connection/Receiving.antt =====
-- How a connection receives (connection.cpp): the size of a message, then its body, which goes to
-- the callback that waits for its uid or else to the `received` signal.
use lnetlib.Base.{ℕ, false, List, [], ◌∷◌, Option, none, some, ◌>>=◌, ◌==◌, if◌then◌else◌}
use lnetlib.Bytes.{Endian}
use lnetlib.Streambuf.{Streambuf}
use lnetlib.Stream.IStream.{IStream, istream, read_basic}
use lnetlib.Connection.State.{
  Delivery, received, called, Connection, Program, record_effect, check_error, wait_package,
  wait_package_body,
}
use lnetlib.Connection.Sending.{dispatch_slot}

module _ {K : Type 0} where
  -- `_callbacks.find(uid)` and `_callbacks.erase(iter)`.
  unfoldable pub find : ℕ → List (ℕ × K) → Option K
  find uid [] = none
  find uid ((i, k) ∷ rest) = if i == uid then some k else find uid rest

  unfoldable pub erase : ℕ → List (ℕ × K) → List (ℕ × K)
  erase uid [] = []
  erase uid ((i, k) ∷ rest) = if i == uid then rest else (i, k) ∷ erase uid rest

module _ (B : Streambuf) (e : Endian) {K : Type 0} where
  -- A plain std::istream over the buffer.
  abbrev pub over : B.Buffer → IStream B (Connection B K)
  over buffer = record {
    buffer = buffer;
    fail = false;
    uid = 0;
    command = 0;
    response_dispatch = [];
  }

  unfoldable pub read_package_size_handler :
      Program B K → Connection B K → B.Buffer → Option ℕ → ℕ → Option (Connection B K)
  read_package_size_handler p c buffer err count = check_error p c err >>= λ r.
      if r.0
      then (if count == 0
          then some r.1
          else some (wait_package_body r.1 (read_basic B e 8 (over buffer) 0).0))
      else some r.1

  -- The received stream, with the connection as the way for its responses; `command` and `uid` are
  -- what its members held before.
  unfoldable pub open_stream : B.Buffer → ℕ → ℕ → IStream B (Connection B K)
  open_stream buffer command uid = record (istream B e buffer command uid) {
    response_dispatch = dispatch_slot B e ∷ [];
  }

  abbrev pub delivery : IStream B (Connection B K) → Delivery B
  delivery s = record { command = s.command; uid = s.uid; body = s.buffer }

  -- A waiting callback is forgotten before it is called.
  unfoldable pub deliver :
      Program B K → Connection B K → IStream B (Connection B K) → Option (Connection B K)
  deliver p c stream = elim (find stream.uid c.callbacks) [
    | none ↦ p.on_received stream (record_effect (received (delivery stream)) c)
    | some cb ↦ p.on_callback cb stream (
        record_effect (called cb (delivery stream))
          (record c { callbacks = erase stream.uid c.callbacks }))
  ]

  unfoldable pub read_package_body_handler :
      Program B K → Connection B K → B.Buffer → ℕ → ℕ → Option ℕ → ℕ → Option (Connection B K)
  read_package_body_handler p c buffer command uid err count = check_error p c err >>= λ r.
      if r.0
      then (if count == 0
          then some r.1
          else (deliver p r.1 (open_stream buffer command uid) >>= λ c'. some (wait_package c')))
      else some r.1
