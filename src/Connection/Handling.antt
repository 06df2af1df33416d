-- ===== src/Connection/Handling.antt =====
-- What one call of each read handler of connection.cpp does with a message that has arrived whole.
use lnetlib.Base.{
  ℕ, ◌^◌, ◌<◌, ◌≡◌, refl, ap, ◌∙◌, false, [], ◌∷◌, ◌++◌, append-nil, none, some, arith, length,
  Option-cases, inl, inr, ◌==◌,
}
use lnetlib.Bytes.{Endian, store, length-store}
use lnetlib.Streambuf.{Streambuf}
use lnetlib.Stream.IStream.{IStream}
use lnetlib.Stream.Reading.{read_basic-Left, istream-eq}
use lnetlib.Connection.State.{
  size, body, received, called, Connection, Program, check_error, record_effect, wait_package,
  wait_package_body,
}
use lnetlib.Connection.Sending.{dispatch_slot}
use lnetlib.Connection.Receiving.{
  find, erase, over, open_stream, delivery, deliver, read_package_size_handler,
  read_package_body_handler,
}
use lnetlib.Connection.Reads.{reads, reads-append, deliveries, deliveries-append, complete_read}
use lnetlib.Connection.Frames.{
  Message, IsMessage, message_bytes, length-message_bytes, arrived, delivery_of, route_one, IsCalm,
}

module _ (B : Streambuf) (e : Endian) {K : Type 0} (p : Program B K) where
  -- The handler of a size that has arrived, whatever the size is.
  pub length_lem :
      (j k : ℕ) (c : Connection B K) (n : ℕ)
      → n < 2 ^ 64
      → complete_read B e p j k c size (store e 8 n) ≡ some (wait_package_body c n)
  unfolding complete_read read_package_size_handler check_error
  length_lem j k c n small =
      let there : B.bytes (B.sputn B.new_buffer (store e 8 n)) ≡ store e 8 n ++ [] =
        simp (B.bytes-sputn, B.bytes-new_buffer, append-nil) in
      rw (
        length-store e 8 n,
        (read_basic-Left B e 8 (over B e (B.sputn B.new_buffer (store e 8 n))) n 0 []
            (omega (arith, small)) (refl, there)).0,
      )

  pub given_lem :
      (j k : ℕ) (m : Message)
      → IsMessage m
      → delivery B e {K = K} (open_stream B e (arrived B e m) j k) ≡ delivery_of B e m
  unfolding open_stream
  given_lem j k m v =
      ap (λ s. delivery B e {K = K} (record s { response_dispatch = dispatch_slot B e ∷ [] }))
        (istream-eq B e (arrived B e m) j k m.command m.uid m.payload v.0 v.1
          (simp (B.bytes-sputn, B.bytes-new_buffer)))

  -- The handler of a body that has arrived, by what delivering it does.
  pub body_step :
      (j k : ℕ) (c c' : Connection B K) (m : Message)
      → deliver B e p c (open_stream B e (arrived B e m) j k) ≡ some c'
      → complete_read B e p j k c body (message_bytes e m) ≡ some (wait_package c')
  unfolding complete_read read_package_body_handler check_error
  body_step j k c c' m done =
      let some_bytes : (length (message_bytes e m) == 0) ≡ false =
        ground (arith, length-message_bytes e m) in
      rw (some_bytes, done)

module _ (B : Streambuf) (e : Endian) {K : Type 0} (p : Program B K) (calm : IsCalm B e p) where
  -- `c'` is `c` after the message has gone where it belongs.
  abbrev pub Routed : Connection B K → Message → Connection B K → Type 0
  Routed c m c' =
      (reads c'.trace ≡ reads c.trace)
      × (deliveries c'.trace ≡ deliveries c.trace ++ (route_one B e c.callbacks m).0 ∷ [])
      × (c'.callbacks ≡ (route_one B e c.callbacks m).1)

  pub deliver_lem :
      (c : Connection B K) (m : Message) (s : IStream B (Connection B K))
      → delivery B e s ≡ delivery_of B e m
      → s.response_dispatch ≡ dispatch_slot B e ∷ []
      → (c' : Connection B K) × (deliver B e p c s ≡ some c') × Routed c m c'
  unfolding deliver
  deliver_lem c m s given from =
      let uid : s.uid ≡ m.uid = ap (λ d. d.uid) given in
      elim (Option-cases (find m.uid c.callbacks)) [
        | inl e0 ↦
            let there : find s.uid c.callbacks ≡ none = rw uid e0 in
            let (c', done, same) =
              calm.received_calm s (record_effect (received (delivery B e s)) c) from in
            (
              c',
              rw (there, deliver) done,
              rw (e0, route_one)
                  (
                    same.asked ∙ simp (reads-append, append-nil),
                    same.delivered
                        ∙ deliveries-append c.trace (received (delivery B e s) ∷ [])
                        ∙ ap (λ d. deliveries c.trace ++ received d ∷ []) given,
                    same.callbacks,
                  ),
            )
        | inr (cb, e1) ↦
            let there : find s.uid c.callbacks ≡ some cb = rw uid e1 in
            let (c', done, same) =
              calm.callback_calm cb s
                (record_effect (called cb (delivery B e s))
                  (record c { callbacks = erase s.uid c.callbacks }))
                from in
            (
              c',
              rw (there, deliver) done,
              rw (e1, route_one)
                  (
                    same.asked ∙ simp (reads-append, append-nil),
                    same.delivered
                        ∙ deliveries-append c.trace (called cb (delivery B e s) ∷ [])
                        ∙ ap (λ d. deliveries c.trace ++ called cb d ∷ []) given,
                    same.callbacks ∙ ap (λ u. erase u c.callbacks) uid,
                  ),
            )
      ]

  -- The handler of a body that has arrived.
  pub body_lem :
      (j k : ℕ) (c : Connection B K) (m : Message)
      → IsMessage m
      → (c' : Connection B K) × (deliver B e p c (open_stream B e (arrived B e m) j k) ≡ some c')
        × Routed c m c'
  body_lem j k c m v =
      deliver_lem c m (open_stream B e (arrived B e m) j k) (given_lem B e p j k m v)
        (unfold open_stream in refl)
