-- ===== src/Connection/Exchange.antt =====
-- A request and its response: two connections of connection.cpp, each with the other's bytes.
use native.Mathlib.Nat.{mod-eq_of_lt}
use lnetlib.Base.{
  ℕ, ◌+◌, ◌%◌, ◌^◌, ◌<◌, ◌≡◌, refl, ap, ◌∙◌, false, List, [], ◌∷◌, ◌++◌, append-nil, append_assoc,
  none, some, All, length, ==_self, if◌then◌else◌,
}
use lnetlib.Bytes.{Endian, store}
use lnetlib.Streambuf.{Streambuf}
use lnetlib.Stream.OStream.{OStream, ostream, destroy}
use lnetlib.Stream.IStream.{IStream}
use lnetlib.Stream.RoundTrip.{Field, Fits, encode_all, write_fields}
use lnetlib.Connection.State.{
  Delivery, size, received, called, async_read, Connection, Program, record_effect, wait_package,
  wait_package_body,
}
use lnetlib.Connection.Sending.{
  create_package, send_package, insert, create_stream, create_stream_for,
}
use lnetlib.Connection.Receiving.{find, open_stream, delivery, deliver}
use lnetlib.Connection.Writes.{writes, writes-append}
use lnetlib.Connection.WriteQueue.{dispatch_free, send_package-writes}
use lnetlib.Connection.Reads.{
  reads, reads-append, deliveries, deliveries-append, Inbox, serve_times,
}
use lnetlib.Connection.Frames.{
  Message, IsMessage, message_bytes, frame, arrived, delivery_of, IsCalm,
}
use lnetlib.Connection.Handling.{given_lem}
use lnetlib.Connection.Framing.{Waiting, sized, frame_step}
use lnetlib.Connection.Arrival.{arrive}
use lnetlib.Connection.Callbacks.{find-insert}
use lnetlib.Connection.Answering.{answer_with, answer_with-dispatch_slot}
use lnetlib.Connection.Posting.{new_bytes, body_bytes, new_bytes-frame, sends, arrive_waits, hears}

module _ (B : Streambuf) (e : Endian) {L : Type 0} (q : Program B L) where
  -- The answer to a message that no callback waits for, by a connection that is free and whose
  -- program answers messages of its command with the values that `f` chooses.
  answers :
      (f : IStream B (Connection B L) → List Field) (j k : ℕ) (y : Inbox B L) (m : Message)
      → ((s : IStream B (Connection B L)) (d : Connection B L)
          → s.command ≡ m.command
          → q.on_received s d ≡ answer_with B e f s d)
      → IsMessage m
      → Waiting y (frame e m ++ [])
      → find m.uid y.conn.callbacks ≡ none
      → y.conn.socket_locked ≡ false
      → All Fits (f (open_stream B e (arrived B e m) j k))
      → (y' : Inbox B L) × (b : B.Buffer) × (serve_times B e q j k 2 y ≡ some y')
        × (writes y'.conn.trace ≡ writes y.conn.trace ++ create_package B e b ∷ [])
        × (B.bytes b
            ≡ message_bytes e (record {
              command = m.command;
              uid = m.uid;
              payload = encode_all e (f (open_stream B e (arrived B e m) j k));
            }))
  unfolding deliver wait_package wait_package_body
  answers f j k y m program v w missing free fits =
      let t : IStream B (Connection B L) = open_stream B e (arrived B e m) j k in
      let given : delivery B e t ≡ delivery_of B e m = given_lem B e q j k m v in
      let uid : t.uid ≡ m.uid = ap (λ d. d.uid) given in
      let asked : t.command ≡ m.command = ap (λ d. d.command) given in
      let command : t.command % 2 ^ 64 ≡ m.command =
        ap (λ n. n % 2 ^ 64) asked ∙ mod-eq_of_lt v.0 in
      let d1 : Connection B L = sized B e q y.conn m in
      let d2 : Connection B L = record_effect (received (delivery B e t)) d1 in
      let (b, bytes, answered) =
        answer_with-dispatch_slot B e f t d2 (unfold open_stream in refl) fits in
      let d3 : Connection B L = send_package (create_package B e b) d2 in
      let there : find t.uid d1.callbacks ≡ none =
        ap (λ u. find u y.conn.callbacks) uid ∙ missing in
      let delivers : deliver B e q d1 t ≡ some d3 =
        rw (there, deliver) (program t d2 asked ∙ answered ∙ dispatch_free B e b d2 free) in
      (
        record { conn = wait_package d3; served = y.served + 2; inbound = [] },
        b,
        frame_step B e q j k y d3 m [] v w delivers,
        writes-append d3.trace (async_read size 8 ∷ [])
            ∙ append-nil (writes d3.trace)
            ∙ send_package-writes (create_package B e b) d2
            ∙ ap (λ ps. ps ++ create_package B e b ∷ [])
                (writes-append d1.trace (received (delivery B e t) ∷ [])
                  ∙ append-nil (writes d1.trace)
                  ∙ writes-append y.conn.trace _
                  ∙ append-nil (writes y.conn.trace)),
        bytes
            ∙ append_assoc (store e 8 (t.command % 2 ^ 64)) (store e 8 t.uid) (encode_all e (f t))
            ∙ ap (λ c. store e 8 c ++ (store e 8 t.uid ++ encode_all e (f t))) command
            ∙ ap (λ u. store e 8 m.command ++ (store e 8 u ++ encode_all e (f t))) uid,
      )

module _ (B : Streambuf) (e : Endian) {K L : Type 0} (p : Program B K) (q : Program B L) where
  -- A request and its answer. One end opens a stream for a response callback, writes any values and
  -- lets the stream go; the other end, whose program answers messages of this command by values
  -- that it chooses, reads the bytes that were written; and the first end reads the bytes that are
  -- written in turn. Then nothing fails on the way, and the first end calls that callback, once and
  -- nothing else, with a stream that has the command and the uid of the request and the values of
  -- the answer, which the other end chose on a stream with the command, the uid and the values of
  -- the request. Both connections must be free and wait for a message, no callback of the other end
  -- may wait for the uid, values and sizes must fit, and the first end's slots return and leave the
  -- read side alone.
  pub exchange :
      (f : IStream B (Connection B L) → List Field) (j k command : ℕ) (cb : K) (gs : List Field)
      (x : Inbox B K) (y : Inbox B L)
      → IsCalm B e p
      → ((s : IStream B (Connection B L)) (d : Connection B L)
          → s.command ≡ command
          → q.on_received s d ≡ answer_with B e f s d)
      → Waiting x []
      → Waiting y []
      → x.conn.socket_locked ≡ false
      → y.conn.socket_locked ≡ false
      → find x.conn.uid_counter y.conn.callbacks ≡ none
      → command < 2 ^ 64
      → x.conn.uid_counter < 2 ^ 64
      → All Fits gs
      → ((s : IStream B (Connection B L)) → All Fits (f s))
      → length (encode_all e gs) + 16 < 2 ^ 64
      → ((s : IStream B (Connection B L)) → length (encode_all e (f s)) + 16 < 2 ^ 64)
      → let (s, c1) = create_stream_for B e x.conn command cb in
        (r : OStream B (Connection B K)) × (c2 : Connection B K) × (y' : Inbox B L) × (x' : Inbox B
          K)
        × (t : IStream B (Connection B L)) × (d : Delivery B) × (write_fields B e s gs ≡ some r)
        × (destroy B e r c1 ≡ some c2)
        × (serve_times B e q j k 2 (arrive (new_bytes x.conn c2) y) ≡ some y')
        × (serve_times B e p j k 2 (arrive (new_bytes y.conn y'.conn) (record x { conn = c2 }))
            ≡ some x')
        × (deliveries x'.conn.trace ≡ deliveries x.conn.trace ++ called cb d ∷ [])
        × ((t.command ≡ command) × (t.uid ≡ s.uid) × (B.bytes t.buffer ≡ encode_all e gs))
        × ((d.command ≡ command) × (d.uid ≡ s.uid) × (B.bytes d.body ≡ encode_all e (f t)))
  unfolding create_stream_for create_stream send_package
  exchange f j k command cb gs x y calm program wx wy free_x free_y missing small_command small_uid
        fits_gs fits_f size_gs size_f =
      let u : ℕ = x.conn.uid_counter in
      let (past, past_asked, past_count, past_there) = wx in
      let c1 : Connection B K = (create_stream_for B e x.conn command cb).1 in
      let (r, b, done, destroyed, bytes) =
        sends B e x.conn c1 command gs free_x small_command fits_gs in
      let c2 : Connection B K = send_package (create_package B e b) c1 in
      let m : Message = record { command = command; uid = u; payload = encode_all e gs } in
      let v : IsMessage m = (small_command, small_uid, size_gs) in
      let request : new_bytes x.conn c2 ≡ frame e m =
        new_bytes-frame B e x.conn c2 b m (send_package-writes (create_package B e b) c1) v bytes in
      let t : IStream B (Connection B L) = open_stream B e (arrived B e m) j k in
      let given : delivery B e t ≡ delivery_of B e m = given_lem B e q j k m v in
      let (y', b', serves, one, bytes') =
        answers B e q f j k (arrive (new_bytes x.conn c2) y) m program v
          (arrive_waits (new_bytes x.conn c2) (frame e m) y wy request) missing free_y (fits_f t) in
      let m' : Message = record { command = command; uid = u; payload = encode_all e (f t) } in
      let v' : IsMessage m' = (small_command, small_uid, size_f t) in
      let response : new_bytes y.conn y'.conn ≡ frame e m' =
        new_bytes-frame B e y.conn y'.conn b' m' one v' bytes' in
      let x1 : Inbox B K = arrive (new_bytes y.conn y'.conn) (record x { conn = c2 }) in
      let asked : reads c2.trace ≡ reads x.conn.trace =
        reads-append x.conn.trace _ ∙ append-nil (reads x.conn.trace) in
      let delivered : deliveries c2.trace ≡ deliveries x.conn.trace =
        deliveries-append x.conn.trace _ ∙ append-nil (deliveries x.conn.trace) in
      let own : (ostream B e {W = Connection B K} command u).uid ≡ u = unfold ostream in refl in
      let waits : find u c2.callbacks ≡ some cb =
        ap (λ n. find u (insert n cb x.conn.callbacks)) own
        ∙ find-insert u u cb x.conn.callbacks
        ∙ ap (λ d. if d then some cb else find u x.conn.callbacks) (==_self u) in
      let (x', heard, calls) =
        hears B e p calm j k x1 m' cb v'
          (arrive_waits (new_bytes y.conn y'.conn) (frame e m') (record x { conn = c2 })
            (past, asked ∙ past_asked, past_count, past_there) response)
          waits in
      (
        r,
        c2,
        y',
        x',
        t,
        delivery_of B e m',
        done,
        destroyed,
        serves,
        heard,
        calls ∙ ap (λ d. d ++ called cb (delivery_of B e m') ∷ []) delivered,
        (
          ap (λ d. d.command) given,
          ap (λ d. d.uid) given ∙ (unfold ostream in refl),
          ap (λ d. B.bytes d.body) given ∙ body_bytes B e m v,
        ),
        (refl, (unfold ostream in refl), body_bytes B e m' v'),
      )
