-- ===== src/Connection/Uids.antt =====
-- The uids of streams, and which message a response callback gets (connection.h and
-- connection.cpp).
use mathlib.Core.Path.{subst}
use lnetlib.Base.{
  ℕ, zero, suc, ◌+◌, ◌%◌, ◌^◌, ◌<◌, ◌≡◌, ◌≢◌, refl, sym, ◌∙◌, List, none, some, arith, ◌==◌,
  if◌then◌else◌, Option-cases, inl, inr,
}
use lnetlib.Bytes.{Endian}
use lnetlib.Streambuf.{Streambuf}
use lnetlib.Stream.OStream.{ostream}
use lnetlib.Connection.State.{received, Connection}
use lnetlib.Connection.Sending.{create_stream, create_stream_for}
use lnetlib.Connection.Receiving.{find, erase}
use lnetlib.Connection.Frames.{Message, delivery_of, route_one}
use lnetlib.Connection.Callbacks.{
  find-insert, find-erase, find-erase_ne, erase-HasUniqueKeys, insert-HasUniqueKeys, HasUniqueKeys,
}

module _ (B : Streambuf) (e : Endian) {K : Type 0} where
  -- The stream that a connection opens after `n` others.
  pub uid_after : ℕ → Connection B K → ℕ
  uid_after zero c = (create_stream B e c 0).0.uid
  uid_after (suc n) c = uid_after n (create_stream B e c 0).1

  uid_after_lem :
      (n : ℕ) (c : Connection B K)
      → c.uid_counter < 2 ^ 64
      → uid_after n c ≡ (c.uid_counter + n) % 2 ^ 64
  unfolding uid_after create_stream ostream
  uid_after_lem zero c h = omega arith
  uid_after_lem (suc n) c h =
      uid_after_lem n (record c { uid_counter = (c.uid_counter + 1) % 2 ^ 64 }) (omega arith)
      ∙ omega arith

  -- No two of 2 ^ 64 streams that a connection opens in a row have the same uid, for a counter
  -- below 2 ^ 64.
  pub uid_after_ne :
      (i j : ℕ) (c : Connection B K)
      → c.uid_counter < 2 ^ 64
      → i < j
      → j < i + 2 ^ 64
      → uid_after i c ≢ uid_after j c
  uid_after_ne i j c h lt near = rw (uid_after_lem i c h, uid_after_lem j c h) (omega arith)

  -- Opening a stream with a callback, on a connection where at most one callback waits for each
  -- uid, makes the callback wait for the stream's uid, leaves all other uids as they were, keeps at
  -- most one callback for each uid, and moves the counter on by one, modulo 2 ^ 64.
  pub create_stream_for-find :
      (c : Connection B K) (command v : ℕ) (cb : K)
      → HasUniqueKeys c.callbacks
      → let r = create_stream_for B e c command cb in
        (find v r.1.callbacks ≡ (if r.0.uid == v then some cb else find v c.callbacks))
        × HasUniqueKeys r.1.callbacks
        × (r.1.uid_counter ≡ (r.0.uid + 1) % 2 ^ 64)
  unfolding create_stream_for create_stream ostream
  create_stream_for-find c command v cb h =
      (find-insert c.uid_counter v cb c.callbacks, insert-HasUniqueKeys c.uid_counter cb _ h, refl)

  route_one_missing :
      (ks : List (ℕ × K)) (n : Message)
      → find n.uid ks ≡ none
      → (route_one B e ks n).0 ≡ received (delivery_of B e n)
  route_one_missing ks n h = rw (h, route_one)

  -- `left` is `ks` after the message `m`: `n` finds no callback, and `v` keeps its own.
  abbrev pub Spent : List (ℕ × K) → Message → ℕ → List (ℕ × K) → Type 0
  Spent ks n v left =
      ((route_one B e left n).0 ≡ received (delivery_of B e n))
      × HasUniqueKeys left
      × (find v left ≡ find v ks)

  -- A callback is called once: after any message, a second message with its uid goes to `received`,
  -- and the callbacks that wait for other uids are as they were, at most one for each uid.
  pub route_one_once :
      (ks : List (ℕ × K)) (m n : Message) (v : ℕ)
      → HasUniqueKeys ks
      → n.uid ≡ m.uid
      → v ≢ m.uid
      → Spent ks n v (route_one B e ks m).1
  route_one_once ks m n v h same ne = elim (Option-cases (find m.uid ks)) [
    | inl e0 ↦
        let left : ks ≡ (route_one B e ks m).1 = rw (e0, route_one) in
        let missing : find n.uid ks ≡ none = rw same e0 in
        subst (Spent ks n v) left (route_one_missing ks n missing, h, refl)
    | inr (cb, e1) ↦
        let left : erase m.uid ks ≡ (route_one B e ks m).1 = rw (e1, route_one) in
        let missing : find n.uid (erase m.uid ks) ≡ none = rw same (find-erase m.uid ks h) in
        subst (Spent ks n v) left (
          route_one_missing (erase m.uid ks) n missing,
          erase-HasUniqueKeys m.uid ks h,
          find-erase_ne m.uid v ks (λ q. ne (sym q)),
        )
  ]
