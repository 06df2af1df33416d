-- ===== src/Demo/Farewell.antt =====
-- The case Quit of the example server's slot (example/server/main.cpp).
use lnetlib.Base.{
  ◌^◌, ◌<◌, ◌≡◌, refl, sym, ap, ◌∙◌, false, [], ◌∷◌, ◌++◌, append-nil, some, arith, if◌then◌else◌,
  Bool-cases, Option-cases, inl, inr,
}
use lnetlib.Bytes.{Endian, store}
use lnetlib.Streambuf.{Streambuf}
use lnetlib.Stream.OStream.{OStream, ostream}
use lnetlib.Stream.IStream.{IStream}
use lnetlib.Stream.Sending.{send_lem, destroy_again}
use lnetlib.Stream.Writing.{ostream-Holds}
use lnetlib.Connection.State.{
  Package, async_write, socket_closed, Connection, Program, record_effect, close, emit_closed,
}
use lnetlib.Connection.Sending.{create_package, send_package, dispatch_slot, create_stream}
use lnetlib.Connection.WriteQueue.{dispatch_locked, dispatch_free}
use lnetlib.Connection.Frames.{Message, frame}
use lnetlib.Connection.EndToEnd.{flatten, create_package-frame}
use lnetlib.Demo.Commands.{quit, goodbye, number, command_of, command_of-number}
use lnetlib.Demo.Server.{on_quit, on_received}

-- The last message of a connection.
abbrev pub farewell : {B : Streambuf} {K : Type 0} → Connection B K → Message
farewell c = record { command = number goodbye; uid = c.uid_counter; payload = [] }

module _ (B : Streambuf) (e : Endian) {K : Type 0} (p : Program B K) where
  on_quit_lem :
      (c c2 : Connection B K) (b : B.Buffer)
      → (ostream B e {W = Connection B K} (number goodbye) c.uid_counter).buffer ≡ some b
      → dispatch_slot B e (some b) (create_stream B e c (number goodbye)).1 ≡ some c2
      → on_quit B e p c
        ≡ emit_closed p (record (record_effect socket_closed c2) { is_open = false })
  unfolding on_quit close create_stream
  on_quit_lem c c2 b owned done =
      let s : OStream B (Connection B K) = (create_stream B e c (number goodbye)).0 in
      let last : Connection B K = record (record_effect socket_closed c2) { is_open = false } in
      rw
        (send_lem B e s (dispatch_slot B e) b (create_stream B e c (number goodbye)).1 c2
          (unfold ostream in refl) refl owned done)
        (elim (Option-cases (emit_closed p last)) [
          | inl e0 ↦ rw e0
          | inr (c3, e1) ↦ rw e1 (destroy_again B e _ c3 refl)
        ])

  -- At a message with the command Quit the slot closes the socket and emits `closed`, whatever that
  -- does: before it closes, it has written one Goodbye if no write was in flight, and else has only
  -- put the Goodbye behind those that wait.
  pub on_received-quit :
      (s : IStream B (Connection B K)) (c : Connection B K)
      → s.command ≡ number quit
      → c.uid_counter < 2 ^ 64
      → (pkg : Package B) × (last : Connection B K) × (flatten pkg.buffer ≡ frame e (farewell c))
        × (on_received B e p s c ≡ emit_closed p last)
        × (last.is_open ≡ false)
        × (last.trace
            ≡ (if c.socket_locked then c.trace else c.trace ++ async_write pkg ∷ [])
              ++ socket_closed ∷ [])
        × (last.packages ≡ (if c.socket_locked then c.packages ++ pkg ∷ [] else c.packages))
  unfolding on_received create_stream send_package
  on_received-quit s c asks small =
      let known : command_of s.command ≡ some quit = ap command_of asks ∙ command_of-number quit in
      let (b, owned, bytes) = ostream-Holds B e (Connection B K) (number goodbye) c.uid_counter in
      let pkg : Package B = create_package B e b in
      let c1 : Connection B K = (create_stream B e c (number goodbye)).1 in
      let framed : flatten pkg.buffer ≡ frame e (farewell c) =
        create_package-frame B e b (farewell c) (omega arith, small, omega arith)
          (bytes
            ∙ ap (λ bs. store e 8 (number goodbye) ++ bs)
                (sym (append-nil (store e 8 c.uid_counter)))) in
      rw known (elim (Bool-cases c.socket_locked) [
        | inl locked ↦ (
          pkg,
          _,
          framed,
          on_quit_lem c _ b owned (dispatch_locked B e b c1 locked),
          refl,
          rw locked refl,
          rw locked refl,
        )
        | inr free ↦ (
          pkg,
          _,
          framed,
          on_quit_lem c _ b owned (dispatch_free B e b c1 free),
          refl,
          rw free refl,
          rw free refl,
        )
      ])
