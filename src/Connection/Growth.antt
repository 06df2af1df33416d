-- ===== src/Connection/Growth.antt =====
-- Reads of connection.cpp whatever bytes come: they return, and only add to what has been
-- delivered.
use lnetlib.Base.{
  ℕ, zero, suc, ◌+◌, ◌≡◌, refl, sym, ap, ◌∙◌, List, [], ◌∷◌, ◌++◌, append-nil, append_assoc, Option,
  none, some, ltb, ◌==◌, length, take, drop, get_elem?, Bool-cases, Option-cases, some_inj, inl,
  inr,
}
use lnetlib.Bytes.{Endian}
use lnetlib.Streambuf.{Streambuf}
use lnetlib.Stream.IStream.{IStream, read_basic}
use lnetlib.Connection.State.{
  ReadKind, size, body, received, called, Connection, Program, record_effect, check_error,
  wait_package, wait_package_body,
}
use lnetlib.Connection.Sending.{dispatch_slot}
use lnetlib.Connection.Receiving.{
  find, over, erase, open_stream, delivery, deliver, read_package_size_handler,
  read_package_body_handler,
}
use lnetlib.Connection.Reads.{
  reads, deliveries, deliveries-append, Inbox, complete_read, serve_read, serve, serve_times,
}
use lnetlib.Connection.Frames.{IsCalm}
use lnetlib.Connection.Arrival.{arrive, serve_pieces}

module _ {B : Streambuf} {K : Type 0} where
  -- Deliveries may have been added.
  abbrev pub Grows : Connection B K → Connection B K → Type 0
  Grows c c' = (ds : List _) × (deliveries c'.trace ≡ deliveries c.trace ++ ds)

  Grows-same : (c c' : Connection B K) → c ≡ c' → Grows c c'
  Grows-same c c' is =
      ([], ap (λ d. deliveries d.trace) (sym is) ∙ sym (append-nil (deliveries c.trace)))

  Grows-trans : (a b c : Connection B K) → Grows a b → Grows b c → Grows a c
  Grows-trans a b c (ds, x) (es, y) =
      (ds ++ es, y ∙ ap (λ l. l ++ es) x ∙ append_assoc (deliveries a.trace) ds es)

module _ (B : Streambuf) (e : Endian) {K : Type 0} (p : Program B K) (calm : IsCalm B e p) where
  deliver-Grows :
      (c c' : Connection B K) (s : IStream B (Connection B K))
      → s.response_dispatch ≡ dispatch_slot B e ∷ []
      → deliver B e p c s ≡ some c'
      → Grows c c'
  unfolding deliver
  deliver-Grows c c' s from h = elim (Option-cases (find s.uid c.callbacks)) [
    | inl e0 ↦
        let (d, done, same) =
          calm.received_calm s (record_effect (received (delivery B e s)) c) from in
        let is : d ≡ c' = some_inj (sym done ∙ (rw (e0, deliver) at h)) in
        (
          received (delivery B e s) ∷ [],
          ap (λ d. deliveries d.trace) (sym is) ∙ same.delivered ∙ deliveries-append c.trace _,
        )
    | inr (cb, e1) ↦
        let (d, done, same) =
          calm.callback_calm cb s
            (record_effect (called cb (delivery B e s))
              (record c { callbacks = erase s.uid c.callbacks }))
            from in
        let is : d ≡ c' = some_inj (sym done ∙ (rw (e1, deliver) at h)) in
        (
          called cb (delivery B e s) ∷ [],
          ap (λ d. deliveries d.trace) (sym is) ∙ same.delivered ∙ deliveries-append c.trace _,
        )
  ]

  complete_read-Grows :
      (j k : ℕ) (c c' : Connection B K) (kind : ReadKind) (got : List ℕ)
      → complete_read B e p j k c kind got ≡ some c'
      → Grows c c'
  unfolding complete_read read_package_size_handler read_package_body_handler check_error
      wait_package wait_package_body
  complete_read-Grows j k c c' size got h = elim (Bool-cases (length got == 0)) [
    | inl none_read ↦ Grows-same c c' (some_inj (rw none_read at h))
    | inr some_read ↦
        let is = some_inj (rw some_read at h) in
        ([], ap (λ d. deliveries d.trace) (sym is) ∙ deliveries-append c.trace _)
  ]
  complete_read-Grows j k c c' body got h = elim (Bool-cases (length got == 0)) [
    | inl none_read ↦ Grows-same c c' (some_inj (rw none_read at h))
    | inr some_read ↦
        let s : IStream B (Connection B K) = open_stream B e (B.sputn B.new_buffer got) j k in
        elim (Option-cases (deliver B e p c s)) [
          | inl stuck ↦ cc (rw (some_read, stuck) at h)
          | inr (d, done) ↦
              let is = some_inj (rw (some_read, done) at h) in
              let (ds, more) = deliver-Grows c d s (unfold open_stream in refl) done in
              (
                ds,
                ap (λ d. deliveries d.trace) (sym is)
                    ∙ deliveries-append d.trace _
                    ∙ append-nil (deliveries d.trace)
                    ∙ more,
              )
        ]
  ]

  serve_read-Grows :
      (j k : ℕ) (r : Option (ReadKind × ℕ)) (x y : Inbox B K)
      → serve_read B e p j k x r ≡ some y
      → Grows x.conn y.conn
  unfolding serve_read
  serve_read-Grows j k none x y h = Grows-same x.conn y.conn (ap (λ z. z.conn) (some_inj h))
  serve_read-Grows j k (some (kind, n)) x y h = elim (Bool-cases (ltb (length x.inbound) n)) [
    | inl waits ↦ Grows-same x.conn y.conn (ap (λ z. z.conn) (some_inj (rw waits at h)))
    | inr there ↦ elim (Option-cases (complete_read B e p j k x.conn kind (take n x.inbound))) [
      | inl stuck ↦ cc (rw (there, stuck) at h)
      | inr (c, done) ↦
          let is : c ≡ y.conn = ap (λ z. z.conn) (some_inj (rw (there, done) at h)) in
          let (ds, more) = complete_read-Grows j k x.conn c kind (take n x.inbound) done in
          (ds, ap (λ d. deliveries d.trace) (sym is) ∙ more)
    ]
  ]

  pub serve_times-Grows :
      (j k n : ℕ) (x y : Inbox B K) → serve_times B e p j k n x ≡ some y → Grows x.conn y.conn
  unfolding serve_times serve
  serve_times-Grows j k zero x y h = Grows-same x.conn y.conn (ap (λ z. z.conn) (some_inj h))
  serve_times-Grows j k (suc n) x y h = elim (Option-cases (serve B e p j k x)) [
    | inl stuck ↦ cc (rw stuck at h)
    | inr (z, one) ↦
        Grows-trans x.conn z.conn y.conn
          (serve_read-Grows j k (get_elem? (reads x.conn.trace) x.served) x z one)
          (serve_times-Grows j k n z y (rw one at h))
  ]

  deliver_total :
      (c : Connection B K) (s : IStream B (Connection B K))
      → s.response_dispatch ≡ dispatch_slot B e ∷ []
      → (c' : Connection B K) × (deliver B e p c s ≡ some c')
  unfolding deliver
  deliver_total c s from = elim (Option-cases (find s.uid c.callbacks)) [
    | inl e0 ↦
        let (d, done, same) =
          calm.received_calm s (record_effect (received (delivery B e s)) c) from in
        (d, rw (e0, deliver) done)
    | inr (cb, e1) ↦
        let (d, done, same) =
          calm.callback_calm cb s
            (record_effect (called cb (delivery B e s))
              (record c { callbacks = erase s.uid c.callbacks }))
            from in
        (d, rw (e1, deliver) done)
  ]

  complete_read_total :
      (j k : ℕ) (c : Connection B K) (kind : ReadKind) (got : List ℕ)
      → (c' : Connection B K) × (complete_read B e p j k c kind got ≡ some c')
  unfolding complete_read read_package_size_handler read_package_body_handler check_error
  complete_read_total j k c size got = elim (Bool-cases (length got == 0)) [
    | inl none_read ↦ (c, rw none_read refl)
    | inr some_read ↦ (
      wait_package_body c (read_basic B e 8 (over B e {K = K} (B.sputn B.new_buffer got)) 0).0,
      rw some_read refl,
    )
  ]
  complete_read_total j k c body got = elim (Bool-cases (length got == 0)) [
    | inl none_read ↦ (c, rw none_read refl)
    | inr some_read ↦
        let s : IStream B (Connection B K) = open_stream B e (B.sputn B.new_buffer got) j k in
        let (d, done) = deliver_total c s (unfold open_stream in refl) in
        (wait_package d, rw (some_read, done) refl)
  ]

  serve_read_total :
      (j k : ℕ) (r : Option (ReadKind × ℕ)) (x : Inbox B K)
      → (y : Inbox B K) × (serve_read B e p j k x r ≡ some y)
  unfolding serve_read
  serve_read_total j k none x = (x, refl)
  serve_read_total j k (some (kind, n)) x = elim (Bool-cases (ltb (length x.inbound) n)) [
    | inl waits ↦ (x, rw waits refl)
    | inr there ↦
        let (c, done) = complete_read_total j k x.conn kind (take n x.inbound) in
        (
          record { conn = c; served = x.served + 1; inbound = drop n x.inbound },
          rw (there, done) refl,
        )
  ]

  serve_times_total :
      (j k n : ℕ) (x : Inbox B K) → (y : Inbox B K) × (serve_times B e p j k n x ≡ some y)
  unfolding serve_times serve
  serve_times_total j k zero x = (x, refl)
  serve_times_total j k (suc n) x =
      let (z, one) = serve_read_total j k (get_elem? (reads x.conn.trace) x.served) x in
      let (y, more) = serve_times_total j k n z in (y, rw one more)

  -- Whatever bytes come, no read fails to return.
  pub serve_pieces_total :
      (j k : ℕ) (cs : List (List ℕ × ℕ)) (x : Inbox B K)
      → (y : Inbox B K) × (serve_pieces B e p j k cs x ≡ some y)
  unfolding serve_pieces
  serve_pieces_total j k [] x = (x, refl)
  serve_pieces_total j k ((bs, n) ∷ cs) x =
      let (z, first) = serve_times_total j k n (arrive bs x) in
      let (y, more) = serve_pieces_total j k cs z in (y, rw first more)
