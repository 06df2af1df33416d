-- ===== src/Connection/Progress.antt =====
-- The messages that a connection (connection.cpp) has delivered while the bytes of its peer still
-- arrive.
use lnetlib.Base.{
  ℕ, ◌*◌, ◌≡◌, refl, sym, ap, ◌∙◌, true, List, [], ◌∷◌, ◌++◌, map, append-nil, append_assoc, some,
  arith, ltb, length, get_elem?, get_elem?-append, All,
}
use lnetlib.Bytes.{Endian}
use lnetlib.Streambuf.{Streambuf}
use lnetlib.Connection.State.{Package, size, received, Program, connection, wait_package}
use lnetlib.Connection.Sending.{create_package}
use lnetlib.Connection.Writes.{writes, IsQuiet}
use lnetlib.Connection.Serial.{Net, Reach, idle, Reach-IsSerial}
use lnetlib.Connection.Reads.{reads, deliveries, Inbox, serve_read, serve, serve_times}
use lnetlib.Connection.Frames.{Message, IsMessage, frames, delivery_of, routed, IsCalm}
use lnetlib.Connection.Framing.{Waiting, serve-frames}
use lnetlib.Connection.Arrival.{
  arrive, whole, serve_pieces, serve_pieces-whole, serve_times-arrive, serve_times-add, IsSettled,
  serve_times-IsSettled,
}
use lnetlib.Connection.Growth.{serve_times-Grows, serve_pieces_total}
use lnetlib.Connection.EndToEnd.{flatten, wire, Carry, wire-frames, routed-nil}

module _ (B : Streambuf) (e : Endian) {K : Type 0} (p : Program B K) (calm : IsCalm B e p) where
  -- A connection that waits for a size of which no byte has come.
  Waiting-IsSettled : (j k : ℕ) (x : Inbox B K) → Waiting x [] → IsSettled B e p j k x
  unfolding serve serve_read
  Waiting-IsSettled j k x (done, asked, count, there) =
      let found : get_elem? (reads x.conn.trace) x.served ≡ some (size, 8) =
        rw (asked, count) (get_elem?-append done (size, 8)) in
      let short : ltb (length x.inbound) 8 ≡ true = rw there refl in
      ap (serve_read B e p j k x) found ∙ rw short refl

  -- A peer's messages are still arriving, in any pieces and with any reads between them: what has
  -- been delivered so far is the beginning of what all the messages come to, whatever part of their
  -- bytes has come, and the rest follows. The messages must be below 2 ^ 64 bytes, the connection
  -- waits for a size, and the program's slots return and leave the read side alone.
  pub serve_pieces-prefix :
      (j k : ℕ) (cs : List (List ℕ × ℕ)) (rest : List ℕ) (ms : List Message) (x y : Inbox B K)
      → All IsMessage ms
      → Waiting x []
      → whole cs ++ rest ≡ frames e ms
      → serve_pieces B e p j k cs x ≡ some y
      → (more : List _) × (deliveries y.conn.trace ++ more
          ≡ deliveries x.conn.trace ++ routed B e x.conn.callbacks ms)
  serve_pieces-prefix j k cs rest ms x y v (past, asked, count, there) part h =
      let x1 : Inbox B K = arrive (frames e ms) x in
      let (z, all, settled, delivered) =
        serve-frames B e p calm j k ms [] x1 v (
          past,
          asked,
          count,
          ap (λ bs. bs ++ frames e ms) there ∙ sym (append-nil (frames e ms)),
        ) in
      let (n, served) = serve_pieces-whole B e p j k cs x y h in
      let (m, first) = serve_times-arrive B e p j k n rest (arrive (whole cs) x) y served in
      let same : arrive rest (arrive (whole cs) x) ≡ x1 =
        ap (λ bs. record x { inbound = bs })
          (append_assoc x.inbound (whole cs) rest ∙ ap (λ bs. x.inbound ++ bs) part) in
      let first' : serve_times B e p j k m x1 ≡ some (arrive rest y) =
        ap (serve_times B e p j k m) (sym same) ∙ first in
      let l : ℕ = 2 * length ms in
      let later : serve_times B e p j k l (arrive rest y) ≡ some z =
        sym (serve_times-add B e p j k m l x1 (arrive rest y) first')
        ∙ ap (λ n. serve_times B e p j k n x1) (omega arith)
        ∙ serve_times-add B e p j k l m x1 z all
        ∙ serve_times-IsSettled B e p j k m z (Waiting-IsSettled j k z settled) in
      let (ds, grown) = serve_times-Grows B e p calm j k l (arrive rest y) z later in
      (ds, sym grown ∙ delivered)

module _ (B : Streambuf) (e : Endian) {K L : Type 0} (p : Program B K) (q : Program B L) where
  wire-append : (ps qs : List (Package B)) → wire (ps ++ qs) ≡ wire ps ++ wire qs
  wire-append [] qs = refl
  wire-append (x ∷ ps) qs =
      ap (λ l. flatten x.buffer ++ l) (wire-append ps qs)
      ∙ sym (append_assoc (flatten x.buffer) (wire ps) (wire qs))

  -- At any moment, after any history of one end by dispatches and completions of writes in any
  -- order, failed ones too, let any part of the bytes that it has written have come to the other
  -- end, a new connection with no callbacks, in any pieces and with any reads between them. Then no
  -- read has failed to return, and the messages that the other end has delivered are the first of
  -- those that were dispatched, in their order, whole, and each once. The slots of the first
  -- program leave the write side alone, those of the second return and leave the read side alone,
  -- and each message is below 2 ^ 64 bytes.
  pub serve_pieces-submitted :
      (j k : ℕ) (n : Net B K) (bs : List B.Buffer) (ms : List Message) (cs : List (List ℕ × ℕ))
      (rest : List ℕ)
      → IsQuiet p
      → IsCalm B e q
      → Reach B e p idle n
      → n.submitted ≡ map (create_package B e) bs
      → All IsMessage ms
      → Carry B e bs ms
      → whole cs ++ rest ≡ wire (writes n.conn.trace)
      → (y : Inbox B L) × (more : List _) × (serve_pieces B e q j k cs
            (record { conn = connection; served = 0; inbound = [] })
          ≡ some y)
        × (deliveries y.conn.trace ++ more ≡ map (λ m. received (delivery_of B e m)) ms)
  unfolding connection wait_package
  serve_pieces-submitted j k n bs ms cs rest quiet calm reach sent fit carry part =
      let x : Inbox B L = record { conn = connection; served = 0; inbound = [] } in
      let (y, done) = serve_pieces_total B e q calm j k cs x in
      let all : wire (writes n.conn.trace ++ n.conn.packages) ≡ frames e ms =
        ap wire ((Reach-IsSerial B e p quiet n reach).fifo ∙ sent)
        ∙ wire-frames B e bs ms fit carry in
      let bytes : whole cs ++ (rest ++ wire n.conn.packages) ≡ frames e ms =
        sym (append_assoc (whole cs) rest (wire n.conn.packages))
        ∙ ap (λ l. l ++ wire n.conn.packages) part
        ∙ sym (wire-append (writes n.conn.trace) n.conn.packages)
        ∙ all in
      let (more, prefix) =
        serve_pieces-prefix B e q calm j k cs (rest ++ wire n.conn.packages) ms x y fit
          ([], refl, refl, refl) bytes done in
      (y, more, done, prefix ∙ routed-nil B e ms)
