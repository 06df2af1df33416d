-- ===== src/Connection/Arrival.antt =====
-- The bytes that a connection (connection.cpp) reads, as they arrive in pieces.
use lnetlib.Base.{
  some_inj, ℕ, zero, suc, ◌+◌, ◌≤◌, ◌≡◌, refl, sym, ap, ◌∙◌, Bool, true, false, List, [], ◌∷◌, ◌++◌,
  append-nil, append_assoc, Option, none, some, ◌>>=◌, arith, ltb, length, length-append, take,
  drop, get_elem?, if◌then◌else◌, Option-cases, le→ltb, ◌⊎◌, inl, inr,
}
use lnetlib.Bytes.{Endian}
use lnetlib.Streambuf.{Streambuf}
use lnetlib.Connection.State.{ReadKind, Connection, Program}
use lnetlib.Connection.Reads.{reads, Inbox, complete_read, serve_read, serve, serve_times}

take_before : (n : ℕ) (xs ys : List ℕ) → n ≤ length xs → take n (xs ++ ys) ≡ take n xs
take_before zero xs ys h = refl
take_before (suc n) [] ys h = absurd (omega arith)
take_before (suc n) (x ∷ xs) ys h = ap (◌∷◌ x) (take_before n xs ys (omega arith))

drop_before : (n : ℕ) (xs ys : List ℕ) → n ≤ length xs → drop n (xs ++ ys) ≡ drop n xs ++ ys
drop_before zero xs ys h = refl
drop_before (suc n) [] ys h = absurd (omega arith)
drop_before (suc n) (x ∷ xs) ys h = drop_before n xs ys (omega arith)

not_ltb : (a b : ℕ) → ltb a b ≡ false → b ≤ a
not_ltb a b h = ground arith

-- What a step that waits or goes on has done.
waits_or_goes :
    {C X : Type 0} (b : Bool) (o : Option C) (f : C → X) (x y : X)
    → (if b then some x else (o >>= λ c. some (f c))) ≡ some y
    → (x ≡ y) ⊎ ((c : C) × (b ≡ false) × (o ≡ some c) × (f c ≡ y))
waits_or_goes true o f x y h = inl (ground arith)
waits_or_goes false none f x y h = cc
waits_or_goes false (some c) f x y h = inr (c, refl, refl, ground arith)

-- All the bytes of some pieces.
abbrev pub whole : List (List ℕ × ℕ) → List ℕ
whole [] = []
whole ((bs, n) ∷ rest) = bs ++ whole rest

module _ {B : Streambuf} {K : Type 0} where
  -- More bytes come from the peer.
  abbrev pub arrive : List ℕ → Inbox B K → Inbox B K
  arrive bs x = record x { inbound = x.inbound ++ bs }

module _ (B : Streambuf) (e : Endian) {K : Type 0} (p : Program B K) (j k : ℕ) where
  -- The bytes arrive in these pieces, and after each piece so many reads are served.
  unfoldable pub serve_pieces : List (List ℕ × ℕ) → Inbox B K → Option (Inbox B K)
  serve_pieces [] x = some x
  serve_pieces ((bs, n) ∷ rest) x = serve_times B e p j k n (arrive bs x) >>= serve_pieces rest

  -- A read that completes does so with more bytes behind it too.
  serve_read-arrive :
      (r : Option (ReadKind × ℕ)) (bs : List ℕ) (x y : Inbox B K)
      → serve_read B e p j k x r ≡ some y
      → (x ≡ y) ⊎ (serve_read B e p j k (arrive bs x) r ≡ some (arrive bs y))
  unfolding serve_read
  serve_read-arrive none bs x y h = inl (ground arith)
  serve_read-arrive (some (kind, n)) bs x y h =
      let after : List ℕ → Connection B K → Inbox B K =
        λ left c. record { conn = c; served = x.served + 1; inbound = left } in
      elim (waits_or_goes (ltb (length x.inbound) n)
        (complete_read B e p j k x.conn kind (take n x.inbound)) (after (drop n x.inbound)) x y h) [
          | inl same ↦ inl same
          | inr (c, enough, done, there) ↦
              let fits = not_ltb (length x.inbound) n enough in
              let still : ltb (length (x.inbound ++ bs)) n ≡ false =
                le→ltb _ _ (omega (arith, fits, length-append x.inbound bs)) in
              inr (
                rw (still, take_before n x.inbound bs fits, done, drop_before n x.inbound bs fits)
                  (ap (λ z. some (arrive bs z)) there))
        ]

  serve-arrive :
      (bs : List ℕ) (x y : Inbox B K)
      → serve B e p j k x ≡ some y
      → (x ≡ y) ⊎ (serve B e p j k (arrive bs x) ≡ some (arrive bs y))
  unfolding serve
  serve-arrive bs x y h = serve_read-arrive (get_elem? (reads x.conn.trace) x.served) bs x y h

  -- Reads that are served before some bytes arrive can as well be served after them.
  pub serve_times-arrive :
      (n : ℕ) (bs : List ℕ) (x y : Inbox B K)
      → serve_times B e p j k n x ≡ some y
      → (m : ℕ) × (serve_times B e p j k m (arrive bs x) ≡ some (arrive bs y))
  unfolding serve_times
  serve_times-arrive zero bs x y h = (0, ap (λ z. some (arrive bs z)) (ground arith))
  serve_times-arrive (suc n) bs x y h = elim (Option-cases (serve B e p j k x)) [
    | inl stuck ↦ cc (rw stuck at h)
    | inr (z, one) ↦
        let more : serve_times B e p j k n z ≡ some y = rw one at h in
        let (m, rest) = serve_times-arrive n bs z y more in
        elim (serve-arrive bs x z one) [
          | inl same ↦ (m, rw same rest)
          | inr now ↦ (suc m, rw now rest)
        ]
  ]

  pub serve_times-add :
      (m n : ℕ) (x y : Inbox B K)
      → serve_times B e p j k m x ≡ some y
      → serve_times B e p j k (m + n) x ≡ serve_times B e p j k n y
  unfolding serve_times
  serve_times-add zero n x y h =
      let same : x ≡ y = some_inj h in
      let none_first : 0 + n ≡ n = omega arith in
      ap (λ l. serve_times B e p j k l x) none_first ∙ ap (serve_times B e p j k n) same
  serve_times-add (suc m) n x y h = elim (Option-cases (serve B e p j k x)) [
    | inl stuck ↦ cc (rw stuck at h)
    | inr (z, one) ↦
        let count : suc m + n ≡ suc (m + n) = omega arith in
        rw (count, one) (serve_times-add m n z y (rw one at h))
  ]

  pub serve_pieces-whole :
      (cs : List (List ℕ × ℕ)) (x y : Inbox B K)
      → serve_pieces cs x ≡ some y
      → (n : ℕ) × (serve_times B e p j k n (arrive (whole cs) x) ≡ some y)
  unfolding serve_pieces
  serve_pieces-whole [] x y h = (
    0,
    unfold serve_times in (ap (λ bs. some (record x { inbound = bs })) (append-nil x.inbound) ∙ h),
  )
  serve_pieces-whole ((bs, n) ∷ cs) x y h =
      elim (Option-cases (serve_times B e p j k n (arrive bs x))) [
        | inl stuck ↦ cc (rw stuck at h)
        | inr (z, first) ↦
            let (m, later) = serve_pieces-whole cs z y (rw first at h) in
            let (l, now) = serve_times-arrive n (whole cs) (arrive bs x) z first in
            (
              l + m,
              ap (λ left. serve_times B e p j k (l + m) (record x { inbound = left }))
                    (sym (append_assoc x.inbound bs (whole cs)))
                  ∙ serve_times-add l m _ _ now
                  ∙ later,
            )
      ]

  -- Nothing more can be served.
  abbrev pub IsSettled : Inbox B K → Type 0
  IsSettled x = serve B e p j k x ≡ some x

  pub serve_times-IsSettled :
      (n : ℕ) (x : Inbox B K) → IsSettled x → serve_times B e p j k n x ≡ some x
  unfolding serve_times
  serve_times-IsSettled zero x h = refl
  serve_times-IsSettled (suc n) x h = rw h (serve_times-IsSettled n x h)
