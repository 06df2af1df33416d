-- ===== src/Connection/Answering.antt =====
-- A program that answers each message, over a connection of connection.cpp.
use lnetlib.Base.{
  ◌%◌, ◌^◌, ◌≡◌, refl, ap, ◌∙◌, List, [], ◌∷◌, ◌++◌, append-nil, Option, some, ◌>>=◌, All,
  Bool-cases, inl, inr,
}
use lnetlib.Bytes.{Endian, store}
use lnetlib.Streambuf.{Streambuf}
use lnetlib.Signal.Emit.{emit_moved, emit_moved_one}
use lnetlib.Stream.OStream.{ostream, destroy}
use lnetlib.Stream.IStream.{IStream, create_response}
use lnetlib.Stream.Writing.{ostream-Holds}
use lnetlib.Stream.RoundTrip.{Field, Fits, encode_all, write_fields, write_fields-Wrote}
use lnetlib.Stream.Sending.{destroy_lem}
use lnetlib.Connection.State.{Connection}
use lnetlib.Connection.Sending.{send_package, dispatch_slot}
use lnetlib.Connection.Reads.{reads-append, deliveries-append}
use lnetlib.Connection.Frames.{SameReads}
use lnetlib.Connection.WriteQueue.{dispatch_locked, dispatch_free}

module _ (B : Streambuf) (e : Endian) {K : Type 0} where
  -- The response has the values that `f` chooses, and is sent by its destructor.
  unfoldable pub answer_with :
      (IStream B (Connection B K) → List Field)
      → IStream B (Connection B K)
      → Connection B K
      → Option (Connection B K)
  answer_with f s c = write_fields B e (create_response B e s) (f s) >>= λ r. destroy B e r c

  -- The answer is dispatched on the connection, with the head words of the request.
  pub answer_with-dispatch_slot :
      (f : IStream B (Connection B K) → List Field) (s : IStream B (Connection B K))
      (c : Connection B K)
      → s.response_dispatch ≡ dispatch_slot B e ∷ []
      → All Fits (f s)
      → (b : B.Buffer) × (B.bytes b
          ≡ (store e 8 (s.command % 2 ^ 64) ++ store e 8 s.uid) ++ encode_all e (f s))
        × (answer_with f s c ≡ dispatch_slot B e (some b) c)
  unfolding answer_with create_response
  answer_with-dispatch_slot f s c from fits =
      let (r, done, (b, owned, bytes), sended, uid, slots) =
        write_fields-Wrote B e (create_response B e s) _ (f s) fits
          (ostream-Holds B e (Connection B K) s.command s.uid) in
      (
        b,
        bytes,
        ap (λ o. o >>= λ r. destroy B e r c) done
            ∙ destroy_lem B e r _ b c (sended ∙ (unfold ostream in refl)) slots owned
            ∙ ap (λ d. emit_moved d (some b) c) from
            ∙ emit_moved_one (dispatch_slot B e) (some b) c,
      )

  -- A dispatch returns, and leaves the read side alone.
  pub dispatch_slot-SameReads :
      (b : B.Buffer) (c : Connection B K)
      → (c' : Connection B K) × (dispatch_slot B e (some b) c ≡ some c') × SameReads B e c c'
  unfolding send_package
  dispatch_slot-SameReads b c = elim (Bool-cases c.socket_locked) [
    | inl locked ↦ (
      _,
      dispatch_locked B e b c locked,
      record { callbacks = refl; asked = refl; delivered = refl },
    )
    | inr free ↦ (
      _,
      dispatch_free B e b c free,
      record {
        callbacks = refl;
        asked = simp (reads-append, append-nil);
        delivered = simp (deliveries-append, append-nil);
      },
    )
  ]
