-- ===== src/Demo/Loops.antt =====
-- The loop of the example server (example/server/main.cpp) at the end of its input.
use lnetlib.Base.{
  ℕ, zero, suc, ◌+◌, ◌%◌, ◌^◌, ◌<◌, ◌≡◌, refl, sym, ap, ◌∙◌, List, [], ◌∷◌, map, Option, some,
  ◌>>=◌, All, arith, Bool-cases, inl, inr,
}
use lnetlib.Bytes.{Endian}
use lnetlib.Streambuf.{Streambuf}
use lnetlib.Encryption.Files.{Text, FileView}
use lnetlib.Stream.OStream.{ostream, destroy}
use lnetlib.Stream.Writing.{ostream-Holds}
use lnetlib.Stream.RoundTrip.{write_fields-Wrote}
use lnetlib.Stream.Sending.{destroy_lem}
use lnetlib.Connection.State.{Connection}
use lnetlib.Connection.Sending.{send_package, dispatch_slot, create_stream}
use lnetlib.Connection.WriteQueue.{dispatch_locked, dispatch_free}
use lnetlib.Demo.Commands.{hello, number, greeting-All}
use lnetlib.Demo.Input.{skip_space, next_char}
use lnetlib.Demo.Server.{say_hello, for_each, Desk, hello_command, run_command, turn}
use lnetlib.Demo.Transfer.{hello_fields, say_hello-write_fields}

-- The same counters after so many streams more.
abbrev pub later : ℕ → List ℕ → List ℕ
later n us = map (λ u. (u + n) % 2 ^ 64) us

later_more : (n : ℕ) (us : List ℕ) → later n (later 1 us) ≡ later (suc n) us
later_more n [] = refl
later_more n (u ∷ us) =
    let more : ((u + 1) % 2 ^ 64 + n) % 2 ^ 64 ≡ (u + suc n) % 2 ^ 64 = omega arith in
    rw (more, later_more n us)

later_none : (us : List ℕ) → All (λ u. u < 2 ^ 64) us → later 0 us ≡ us
later_none [] h = refl
later_none (u ∷ us) h =
    let same : (u + 0) % 2 ^ 64 ≡ u = omega (arith, h.0) in rw (same, later_none us h.1)

later_small : (n : ℕ) (us : List ℕ) → All (λ u. u < 2 ^ 64) (later n us)
later_small n [] = tt
later_small n (u ∷ us) = (omega arith, later_small n us)

module _ (B : Streambuf) (e : Endian) {K : Type 0} where
  -- `c'` has opened so many streams more than `c`.
  abbrev Opened : ℕ → Connection B K → Connection B K → Type 0
  Opened n c c' = c'.uid_counter ≡ (c.uid_counter + n) % 2 ^ 64

  dispatch_slot-Opened :
      (b : B.Buffer) (c : Connection B K)
      → (c' : Connection B K) × (dispatch_slot B e (some b) c ≡ some c')
        × (c'.uid_counter ≡ c.uid_counter)
  unfolding send_package
  dispatch_slot-Opened b c = elim (Bool-cases c.socket_locked) [
    | inl locked ↦ (_, dispatch_locked B e b c locked, refl)
    | inr free ↦ (_, dispatch_free B e b c free, refl)
  ]

  say_hello-Opened :
      (c : Connection B K) → (c' : Connection B K) × (say_hello B e c ≡ some c') × Opened 1 c c'
  unfolding create_stream
  say_hello-Opened c =
      let (s, c1) = create_stream B e c (number hello) in
      let (t, done, (b, owned, bytes), sended, uid, slots) =
        write_fields-Wrote B e s _ hello_fields ((greeting-All, omega arith), tt)
          (ostream-Holds B e (Connection B K) (number hello) c.uid_counter) in
      let (c', sent, same) = dispatch_slot-Opened b c1 in
      (
        c',
        say_hello-write_fields B e c
            ∙ ap (λ o. o >>= λ t. destroy B e t c1) done
            ∙ destroy_lem B e t (dispatch_slot B e) b c1 (sended ∙ (unfold ostream in refl)) slots
                owned
            ∙ sent,
        same,
      )

  -- The counters of the connections.
  abbrev pub uids : List (Connection B K) → List ℕ
  uids cs = map (λ c. c.uid_counter) cs

  for_each-say_hello :
      (cs : List (Connection B K))
      → (cs' : List (Connection B K)) × (for_each (say_hello B e) cs ≡ some cs')
        × (uids cs' ≡ later 1 (uids cs))
  unfolding for_each
  for_each-say_hello [] = ([], refl, refl)
  for_each-say_hello (c ∷ cs) =
      let (c', said, opened) = say_hello-Opened c in
      let (cs', rest, opened') = for_each-say_hello cs in
      (c' ∷ cs', rw (said, rest), rw (opened, opened') refl)

  -- So many turns of the loop.
  pub turns : (Text → FileView) → ℕ → Desk B K → Option (Desk B K)
  turns view zero d = some d
  turns view (suc n) d = turn B e view d >>= turns view n

  turn_again :
      (view : Text → FileView) (d : Desk B K)
      → d.input ≡ []
      → d.cmd ≡ b'h'
      → (cs : List (Connection B K)) × (turn B e view d ≡ some (record d { connections = cs }))
        × (uids cs ≡ later 1 (uids d.connections))
  unfolding turn next_char skip_space run_command hello_command
  turn_again view d ended last =
      let (cs, said, opened) = for_each-say_hello d.connections in
      (cs, rw (ended, last, said) refl, opened)

  -- When the console's input has ended and the last command was 'h', the server's loop never ends:
  -- for any number of turns, each returns, the loop still runs, and every turn has opened one
  -- stream more on every connection.
  pub turns-exhausted :
      (view : Text → FileView) (n : ℕ) (d : Desk B K)
      → d.input ≡ []
      → d.cmd ≡ b'h'
      → All (λ u. u < 2 ^ 64) (uids d.connections)
      → (cs : List (Connection B K)) × (turns view n d ≡ some (record d { connections = cs }))
        × (uids cs ≡ later n (uids d.connections))
  unfolding turns
  turns-exhausted view zero d ended last small = (d.connections, refl, sym (later_none _ small))
  turns-exhausted view (suc n) d ended last small =
      let (cs, once, opened) = turn_again view d ended last in
      let (cs', more, opened') =
        turns-exhausted view n (record d { connections = cs }) ended last
          (rw opened (later_small 1 (uids d.connections))) in
      (cs', rw once more, opened' ∙ ap (later n) opened ∙ later_more n (uids d.connections))
