-- ===== src/Demo/Talk.antt =====
-- The command 'm' of the example client (example/client/main.cpp), from the console to the line
-- that its callback writes, with the example server (example/server/main.cpp) at the other end.
use lnetlib.Base.{
  ℕ, ◌+◌, ◌^◌, ◌<◌, ◌≡◌, refl, sym, ap, ◌∙◌, false, List, [], ◌∷◌, ◌++◌, append_assoc, none, some,
  arith, length, length-append,
}
use lnetlib.Bytes.{Endian, store, length-store}
use lnetlib.Streambuf.{Streambuf}
use lnetlib.Stream.OStream.{OStream, ostream, eight, destroy}
use lnetlib.Stream.IStream.{IStream, create_response}
use lnetlib.Stream.Reading.{read_string-Left}
use lnetlib.Stream.Writing.{ostream-Holds, write_string-Wrote}
use lnetlib.Stream.RoundTrip.{Field, Fits, Memory, Terminated, encode_all, write_fields}
use lnetlib.Stream.Sending.{scope, scope-emit_moved}
use lnetlib.Connection.State.{Delivery, called, Connection, Program}
use lnetlib.Connection.Sending.{create_stream, create_stream_for}
use lnetlib.Connection.Receiving.{find}
use lnetlib.Connection.Reads.{deliveries, Inbox, serve_times}
use lnetlib.Connection.Frames.{IsCalm}
use lnetlib.Connection.Framing.{Waiting}
use lnetlib.Connection.Arrival.{arrive}
use lnetlib.Connection.Answering.{answer_with}
use lnetlib.Connection.Posting.{new_bytes}
use lnetlib.Connection.Exchange.{exchange}
use lnetlib.Demo.Commands.{message, number, command_of, command_of-number, ready, ready-All}
use lnetlib.Demo.Server.{send_out, on_message, on_received, serving}
use lnetlib.Demo.Client.{
  Callback, show_answer, callback_message, Terminal, print, on_answer, stream_of, watching,
  ask_message,
}

module _ (B : Streambuf) (e : Endian) {K : Type 0} where
  pub send_out-destroy :
      (s : OStream B (Connection B K)) (c : Connection B K)
      → s.sended ≡ false
      → send_out B e s c ≡ destroy B e s c
  unfolding scope
  send_out-destroy s c fresh =
      scope-emit_moved B e 1 s c fresh ∙ sym (scope-emit_moved B e 0 s c fresh)

  -- The text that the server answers, as the values of its response.
  abbrev pub answer_fields : IStream B (Connection B K) → List Field
  answer_fields s = Field.text eight ready ∷ []

  on_message-answer_with :
      (s : IStream B (Connection B K)) (c : Connection B K)
      → on_message B e s c ≡ answer_with B e answer_fields s c
  unfolding on_message answer_with write_fields create_response
  on_message-answer_with s c =
      let (r, done, _, sended, _, _) =
        write_string-Wrote B e eight (create_response B e s) _ ready
          (ostream-Holds B e (Connection B K) s.command s.uid) in
      rw done (send_out-destroy r c (sended ∙ (unfold ostream in refl)))

  serving-answer_with :
      (q : Program B K) (s : IStream B (Connection B K)) (c : Connection B K)
      → s.command ≡ number message
      → (serving B e q).on_received s c ≡ answer_with B e answer_fields s c
  unfolding on_received
  serving-answer_with q s c h =
      let known : command_of s.command ≡ some message =
        ap command_of h ∙ command_of-number message in
      rw known (on_message-answer_with s c)

answer_fits : (e : Endian) → length (encode_all e (Field.text eight ready ∷ [])) + 16 < 2 ^ 64
answer_fits e =
    let head : List ℕ = store e 8 (length ready) in
    omega (
      arith,
      length-append (head ++ ready) [],
      length-append head ready,
      length-store e 8 (length ready),
    )

module _ (B : Streambuf) (e : Endian) where
  pub watching-IsCalm : (p : Program B Callback) → IsCalm B e (watching B e p)
  watching-IsCalm p = record {
    received_calm =
        λ s c from. (c, refl, record { callbacks = refl; asked = refl; delivered = refl });
    callback_calm =
        λ cb s c from. (c, refl, record { callbacks = refl; asked = refl; delivered = refl });
  }

  answer_shows :
      (m : Memory) (d : Delivery B) (t : Terminal)
      → Terminated (Field.text eight ready) m
      → B.bytes d.body ≡ encode_all e (Field.text eight ready ∷ [])
      → on_answer B e m (stream_of B e d) t ≡ some (print (callback_message ready) t)
  unfolding on_answer
  answer_shows m d t (more, ends) body =
      let (s', read, left) =
        read_string-Left B e eight (stream_of B e d) m.junk ready more [] m.stack ready-All
          (omega arith) ends (refl, body ∙ append_assoc (store e 8 (length ready)) ready []) in
      rw read refl

module _ (B : Streambuf) (e : Endian) {L : Type 0} (p : Program B Callback) (q : Program B L) where
  -- The command 'm' on a client's connection, with the example server at the other end: nothing
  -- fails on the way, the server's slot answers, the client calls the callback of the command and
  -- nothing else, and that writes one line, "callback message: ready\nsteady\ngo!\n", to the
  -- console. Both connections must be free and wait for a message, no callback of the server may
  -- wait for the uid, and behind the callback's array its memory must have a zero byte somewhere.
  pub ask_message-shows :
      (j k : ℕ) (m : Memory) (terminal : Terminal) (x : Inbox B Callback) (y : Inbox B L)
      → Waiting x []
      → Waiting y []
      → x.conn.socket_locked ≡ false
      → y.conn.socket_locked ≡ false
      → find x.conn.uid_counter y.conn.callbacks ≡ none
      → x.conn.uid_counter < 2 ^ 64
      → Terminated (Field.text eight ready) m
      → (c : Connection B Callback) × (y' : Inbox B L) × (x' : Inbox B Callback) × (d : Delivery B)
        × (ask_message B e x.conn ≡ some c)
        × (serve_times B e (serving B e q) j k 2 (arrive (new_bytes x.conn c) y) ≡ some y')
        × (serve_times B e
              (watching B e p)
              j
              k
              2
              (arrive (new_bytes y.conn y'.conn) (record x { conn = c }))
            ≡ some x')
        × (deliveries x'.conn.trace ≡ deliveries x.conn.trace ++ called show_answer d ∷ [])
        × (on_answer B e m (stream_of B e d) terminal
            ≡ some (print (callback_message ready) terminal))
  unfolding ask_message create_stream_for create_stream write_fields
  ask_message-shows j k m terminal x y wx wy free_x free_y missing small_uid ends =
      let fits : Fits (Field.text eight ready) = (ready-All, omega arith) in
      let (r, c, y', x', t, d, wrote, gone, served, heard, calls, asked, (command, uid, body)) =
        exchange B e (watching B e p) (serving B e q) (answer_fields B e) j k (number message)
          show_answer [] x y (watching-IsCalm B e p) (serving-answer_with B e q) wx wy free_x free_y
          missing (omega arith) small_uid tt (λ s. (fits, tt)) (omega arith) (λ s. answer_fits e) in
      let opened : OStream B (Connection B Callback) =
        (create_stream_for B e x.conn (number message) show_answer).0 in
      let c1 : Connection B Callback =
        (create_stream_for B e x.conn (number message) show_answer).1 in
      let same : opened ≡ r = ground (arith, wrote) in
      (
        c,
        y',
        x',
        d,
        send_out-destroy B e opened c1 (unfold ostream in refl)
            ∙ ap (λ s. destroy B e s c1) same
            ∙ gone,
        served,
        heard,
        calls,
        answer_shows B e m d terminal ends body,
      )
