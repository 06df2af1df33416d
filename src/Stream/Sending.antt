-- ===== src/Stream/Sending.antt =====
-- send, the destructor and create_response (ostream.cpp and istream.cpp).
use native.Mathlib.Nat.{mod-eq_of_lt}
use lnetlib.Base.{
  ℕ, zero, suc, ◌^◌, ◌<◌, ◌≡◌, refl, ◌∙◌, true, false, List, [], ◌∷◌, ap, ◌++◌, Option, none, some,
  ◌>>=◌, arith, Bool-cases, Option-cases, inl, inr,
}
use lnetlib.Bytes.{Endian, store}
use lnetlib.Streambuf.{Streambuf}
use lnetlib.Signal.Emit.{MoveSlot, emit_moved, emit_moved_one}
use lnetlib.Stream.OStream.{OStream, ostream, write, send, destroy}
use lnetlib.Stream.IStream.{IStream, create_response}
use lnetlib.Stream.Writing.{ostream-Holds}

module _ (B : Streambuf) (e : Endian) {W : Type 0} where
  -- A first `send` gives the buffer to the slots, and leaves the stream sent and with no buffer.
  send_first :
      (s : OStream B W) (world : W)
      → s.sended ≡ false
      → send B e s world ≡ (
          emit_moved s.dispatch s.buffer world >>= λ world'.
          some (record s { buffer = none; sended = true }, world'))
  unfolding send
  send_first s world fresh = rw fresh

  send_again : (s : OStream B W) (world : W) → s.sended ≡ true → send B e s world ≡ some (s, world)
  unfolding send
  send_again s world sent = rw sent

  -- Whatever a call of `send` did, the stream has been sent afterwards.
  send_sended :
      (s s' : OStream B W) (world world' : W)
      → send B e s world ≡ some (s', world')
      → s'.sended ≡ true
  unfolding send
  send_sended s s' world world' h = ground (arith, Bool-cases s.sended)

  -- Once sent, neither `send` nor the destructor does anything.
  pub destroy_again :
      (s : OStream B W) (world : W) → s.sended ≡ true → destroy B e s world ≡ some world
  unfolding destroy
  destroy_again s world sent = rw (send_again s world sent)

  -- `send` of a stream that has one slot and has not been sent.
  pub send_lem :
      (s : OStream B W) (slot : MoveSlot B.Buffer W) (b : B.Buffer) (world world' : W)
      → s.sended ≡ false
      → s.dispatch ≡ slot ∷ []
      → s.buffer ≡ some b
      → slot (some b) world ≡ some world'
      → send B e s world ≡ some (record s { buffer = none; sended = true }, world')
  send_lem s slot b world world' fresh slots owned done =
      let emitted : emit_moved s.dispatch s.buffer world ≡ some world' =
        ap (λ d. emit_moved d s.buffer world) slots
        ∙ ap (λ o. emit_moved (slot ∷ []) o world) owned
        ∙ emit_moved_one slot (some b) world
        ∙ done in
      rw (send_first s world fresh, emitted)

  -- The life of a stream after its writes: `n` calls of `send`, then the destructor.
  unfoldable pub scope : ℕ → OStream B W → W → Option W
  scope zero s world = destroy B e s world
  scope (suc n) s world = send B e s world >>= λ r. scope n r.0 r.1

  scope_again :
      (n : ℕ) (s : OStream B W) (world : W) → s.sended ≡ true → scope n s world ≡ some world
  unfolding scope
  scope_again zero s world sent = destroy_again s world sent
  scope_again (suc n) s world sent = rw (send_again s world sent) (scope_again n s world sent)

  -- However often `send` is called before the stream is destroyed, and also when it never is, the
  -- buffer of a stream that has not been sent goes to the slots of `dispatch` exactly once.
  pub scope-emit_moved :
      (n : ℕ) (s : OStream B W) (world : W)
      → s.sended ≡ false
      → scope n s world ≡ emit_moved s.dispatch s.buffer world
  unfolding scope destroy
  scope-emit_moved zero s world fresh =
      rw (send_first s world fresh) (elim (Option-cases (emit_moved s.dispatch s.buffer world)) [
        | inl e ↦ rw e
        | inr (w, e) ↦ rw e
      ])
  scope-emit_moved (suc n) s world fresh =
      rw (send_first s world fresh) (elim (Option-cases (emit_moved s.dispatch s.buffer world)) [
        | inl e ↦ rw e
        | inr (w, e) ↦ rw e (scope_again n _ w refl)
      ])

  -- The destructor of a stream that has one slot and has not been sent.
  pub destroy_lem :
      (s : OStream B W) (slot : MoveSlot B.Buffer W) (b : B.Buffer) (world : W)
      → s.sended ≡ false
      → s.dispatch ≡ slot ∷ []
      → s.buffer ≡ some b
      → destroy B e s world ≡ slot (some b) world
  destroy_lem s slot b world fresh slots owned =
      unfold scope in
      (scope-emit_moved zero s world fresh)
      ∙ ap (λ d. emit_moved d s.buffer world) slots
      ∙ ap (λ o. emit_moved (slot ∷ []) o world) owned
      ∙ emit_moved_one slot (some b) world

  -- After a `send` that returns, on a stream that had not been sent, a write of any bytes has no
  -- defined behaviour: the stream writes through its pointer to a buffer that it no longer owns.
  pub write-send :
      (s s' : OStream B W) (world world' : W) (bs : List ℕ)
      → s.sended ≡ false
      → send B e s world ≡ some (s', world')
      → write B e s' bs ≡ none
  unfolding send write
  write-send s s' world world' bs fresh h = ground arith

  -- Whatever a response is sent by (any number of `send` calls and the destructor), its buffer,
  -- which begins with the command and the uid of the request, goes to the slots that the request's
  -- stream was connected to, exactly once; the words must be below 2 ^ 64, as uint64_t makes them.
  pub scope-create_response :
      (n : ℕ) (request : IStream B W) (world : W)
      → request.command < 2 ^ 64
      → request.uid < 2 ^ 64
      → (b : B.Buffer) × (B.bytes b ≡ store e 8 request.command ++ store e 8 request.uid)
        × (scope n (create_response B e request) world
            ≡ emit_moved request.response_dispatch (some b) world)
  unfolding create_response
  scope-create_response n request world hc hu =
      let (b, owned, bytes) = ostream-Holds B e W request.command request.uid in
      (
        b,
        rw (mod-eq_of_lt hc) at bytes,
        scope-emit_moved n (create_response B e request) world (unfold ostream in refl)
            ∙ rw owned (emit_moved_one _ (some b) world),
      )
