-- ===== src/Server/Roster.antt =====
-- The list of connections and the map of sessions of server.cpp.
use lnetlib.Base.{ℕ, ◌≡◌, ◌≢◌, refl, sym, List, [], ◌∷◌, ◌++◌, map, arith}
use lnetlib.Connection.Sending.{insert}
use lnetlib.Connection.Receiving.{erase}
use lnetlib.Server.Accepting.{remove}
use lnetlib.Server.Events.{NotIn, Distinct, without}

without_absent : (c : ℕ) (cs : List ℕ) → NotIn c cs → without c cs ≡ cs
without_absent c [] h = refl
without_absent c (d ∷ ds) h = ground (arith, without_absent c ds h.1)

pub remove-without : (c : ℕ) (cs : List ℕ) → Distinct cs → remove c cs ≡ without c cs
unfolding remove
remove-without c [] h = refl
remove-without c (d ∷ ds) h = ground (arith, remove-without c ds h.1, without_absent c ds)

NotIn-without : (c d : ℕ) (cs : List ℕ) → NotIn d cs → NotIn d (without c cs)
NotIn-without c d [] h = tt
NotIn-without c d (x ∷ xs) h = ground (arith, NotIn-without c d xs h.1)

pub Distinct-without : (c : ℕ) (cs : List ℕ) → Distinct cs → Distinct (without c cs)
Distinct-without c [] h = tt
Distinct-without c (d ∷ ds) h = ground (arith, Distinct-without c ds h.1, NotIn-without c d ds h.0)

NotIn-append : (c d : ℕ) (cs : List ℕ) → NotIn c cs → d ≢ c → NotIn c (cs ++ d ∷ [])
NotIn-append c d [] h ne = (ne, tt)
NotIn-append c d (x ∷ xs) h ne = (h.0, NotIn-append c d xs h.1 ne)

pub Distinct-append : (c : ℕ) (cs : List ℕ) → NotIn c cs → Distinct cs → Distinct (cs ++ c ∷ [])
Distinct-append c [] h k = (tt, tt)
Distinct-append c (d ∷ ds) h k =
    (NotIn-append d c ds k.0 (λ e. h.0 (sym e)), Distinct-append c ds h.1 k.1)

pub keys-insert :
    (c v : ℕ) (ss : List (ℕ × ℕ))
    → NotIn c (map (λ r. r.0) ss)
    → map (λ r. r.0) (insert c v ss) ≡ map (λ r. r.0) ss ++ c ∷ []
unfolding insert
keys-insert c v [] h = refl
keys-insert c v ((d, w) ∷ ss) h = ground (arith, keys-insert c v ss h.1)

pub keys-erase :
    (c : ℕ) (ss : List (ℕ × ℕ)) → map (λ r. r.0) (erase c ss) ≡ remove c (map (λ r. r.0) ss)
unfolding erase remove
keys-erase c [] = refl
keys-erase c ((d, w) ∷ ss) = ground (arith, keys-erase c ss)
