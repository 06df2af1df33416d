-- ===== src/Connection/Framing.antt =====
-- The frames of a sequence of messages, as a connection (connection.cpp) reads them.
use lnetlib.Base.{
  ℕ, suc, ◌+◌, ◌*◌, ◌≡◌, refl, ap, ◌∙◌, List, [], ◌∷◌, ◌++◌, append-nil, append_assoc, some, arith,
  length, length-append, All, Option-cases, inl, inr,
}
use lnetlib.Bytes.{Endian, store, length-store}
use lnetlib.Streambuf.{Streambuf}
use lnetlib.Connection.State.{
  ReadKind, size, body, async_read, Connection, Program, wait_package, wait_package_body,
}
use lnetlib.Connection.Reads.{
  reads, reads-append, deliveries, deliveries-append, Inbox, serve, serve_times, serve_lem,
}
use lnetlib.Connection.Frames.{
  Message, IsMessage, message_bytes, length-message_bytes, arrived, frame, frames, route_one,
  routed, IsCalm,
}
use lnetlib.Connection.Receiving.{open_stream, deliver}
use lnetlib.Connection.Handling.{length_lem, body_step, body_lem}

module _ {B : Streambuf} {K : Type 0} where
  -- The connection waits for the size of the next message, and `rest` is still unread.
  abbrev pub Waiting : Inbox B K → List ℕ → Type 0
  Waiting x rest =
      (done : List (ReadKind × ℕ)) × (reads x.conn.trace ≡ done ++ (size, 8) ∷ [])
      × (x.served ≡ length done)
      × (x.inbound ≡ rest)

module _ (B : Streambuf) (e : Endian) {K : Type 0} (p : Program B K) where
  -- The connection once it has read the size of a message.
  abbrev pub sized : Connection B K → Message → Connection B K
  sized c m = wait_package_body c (length (message_bytes e m))

  -- Two reads take one frame, and the message is delivered.
  pub frame_step :
      (j k : ℕ) (x : Inbox B K) (c : Connection B K) (m : Message) (rest : List ℕ)
      → IsMessage m
      → Waiting x (frame e m ++ rest)
      → deliver B e p (sized x.conn m) (open_stream B e (arrived B e m) j k) ≡ some c
      → serve_times B e p j k 2 x
        ≡ some (record { conn = wait_package c; served = x.served + 2; inbound = rest })
  unfolding serve_times wait_package_body
  frame_step j k x c m rest v (done, asked, count, there) delivers =
      let n : ℕ = length (message_bytes e m) in
      let c1 : Connection B K = wait_package_body x.conn n in
      let x1 : Inbox B K = record {
        conn = c1;
        served = x.served + 1;
        inbound = message_bytes e m ++ rest;
      } in
      let step1 : serve B e p j k x ≡ some x1 =
        serve_lem B e p j k x done size 8 (store e 8 n) (message_bytes e m ++ rest) c1 asked count
          (there ∙ append_assoc (store e 8 n) (message_bytes e m) rest) (length-store e 8 n)
          (length_lem B e p j k x.conn n (omega (arith, v, length-message_bytes e m))) in
      let done1 : List (ReadKind × ℕ) = done ++ (size, 8) ∷ [] in
      let asked1 : reads c1.trace ≡ done1 ++ (body, n) ∷ [] =
        reads-append x.conn.trace (async_read body n ∷ []) ∙ ap (λ r. r ++ (body, n) ∷ []) asked in
      let y : Inbox B K = record {
        conn = wait_package c;
        served = x.served + 1 + 1;
        inbound = rest;
      } in
      let step2 : serve B e p j k x1 ≡ some y =
        serve_lem B e p j k x1 done1 body n (message_bytes e m) rest (wait_package c) asked1
          (omega (arith, count, length-append done ((size, 8) ∷ []))) refl refl
          (body_step B e p j k c1 c m delivers) in
      let two : x.served + 1 + 1 ≡ x.served + 2 = omega arith in
      rw (step1, step2)
        (ap (λ n. some (record { conn = wait_package c; served = n; inbound = rest })) two)

  pub serve_twice :
      (j k n : ℕ) (x y : Inbox B K)
      → serve_times B e p j k 2 x ≡ some y
      → serve_times B e p j k (suc (suc n)) x ≡ serve_times B e p j k n y
  unfolding serve_times
  serve_twice j k n x y h = elim (Option-cases (serve B e p j k x)) [
    | inl stuck ↦ cc (rw stuck at h)
    | inr (x1, once) ↦ elim (Option-cases (serve B e p j k x1)) [
      | inl stuck ↦ cc (rw (once, stuck) at h)
      | inr (x2, twice) ↦
          let same : x2 ≡ y = ground (arith, rw (once, twice) at h) in rw (once, twice, same)
    ]
  ]

module _ (B : Streambuf) (e : Endian) {K : Type 0} (p : Program B K) (calm : IsCalm B e p) where
  pub frame_lem :
      (j k : ℕ) (x : Inbox B K) (m : Message) (rest : List ℕ)
      → IsMessage m
      → Waiting x (frame e m ++ rest)
      → (y : Inbox B K) × (serve_times B e p j k 2 x ≡ some y)
        × Waiting y rest
        × (deliveries y.conn.trace
            ≡ deliveries x.conn.trace ++ (route_one B e x.conn.callbacks m).0 ∷ [])
        × (y.conn.callbacks ≡ (route_one B e x.conn.callbacks m).1)
  unfolding wait_package wait_package_body
  frame_lem j k x m rest v (done, asked, count, there) =
      let n : ℕ = length (message_bytes e m) in
      let c1 : Connection B K = wait_package_body x.conn n in
      let (c2, done2, (asked2, delivered2, callbacks2)) = body_lem B e p calm j k c1 m v in
      let done1 : List (ReadKind × ℕ) = done ++ (size, 8) ∷ [] in
      let asked1 : reads c1.trace ≡ done1 ++ (body, n) ∷ [] =
        reads-append x.conn.trace (async_read body n ∷ []) ∙ ap (λ r. r ++ (body, n) ∷ []) asked in
      (
        record { conn = wait_package c2; served = x.served + 2; inbound = rest },
        frame_step B e p j k x c2 m rest v (done, asked, count, there) done2,
        (
          done1 ++ (body, n) ∷ [],
          reads-append c2.trace (async_read size 8 ∷ [])
              ∙ ap (λ r. r ++ (size, 8) ∷ []) (asked2 ∙ asked1),
          omega (
            arith,
            count,
            length-append done ((size, 8) ∷ []),
            length-append done1 ((body, n) ∷ []),
          ),
          refl,
        ),
        deliveries-append c2.trace (async_read size 8 ∷ [])
            ∙ append-nil (deliveries c2.trace)
            ∙ delivered2
            ∙ ap (λ d. d ++ (route_one B e x.conn.callbacks m).0 ∷ [])
                (deliveries-append x.conn.trace (async_read body n ∷ [])
                  ∙ append-nil (deliveries x.conn.trace)),
        callbacks2,
      )

  pub serve-frames :
      (j k : ℕ) (ms : List Message) (rest : List ℕ) (x : Inbox B K)
      → All IsMessage ms
      → Waiting x (frames e ms ++ rest)
      → (y : Inbox B K) × (serve_times B e p j k (2 * length ms) x ≡ some y)
        × Waiting y rest
        × (deliveries y.conn.trace ≡ deliveries x.conn.trace ++ routed B e x.conn.callbacks ms)
  serve-frames j k [] rest x v w = (x, unfold serve_times in refl, w, rw append-nil)
  serve-frames j k (m ∷ ms) rest x v w =
      let (y, two, w', delivered, callbacks) =
        frame_lem j k x m (frames e ms ++ rest) v.0
          (rw (append_assoc (frame e m) (frames e ms) rest) at w) in
      let (z, more, w'', delivered') = serve-frames j k ms rest y v.1 w' in
      let double : 2 * suc (length ms) ≡ suc (suc (2 * length ms)) = omega arith in
      let (effect, left) = route_one B e x.conn.callbacks m in
      (
        z,
        rw double (serve_twice B e p j k (2 * length ms) x y two ∙ more),
        w'',
        delivered'
            ∙ ap (λ q. deliveries y.conn.trace ++ routed B e q ms) callbacks
            ∙ ap (λ d. d ++ routed B e left ms) delivered
            ∙ append_assoc (deliveries x.conn.trace) (effect ∷ []) (routed B e left ms),
      )
