-- ===== src/Server/Phases.antt =====
-- The list of a server and the phases of its threads (server.cpp).
use lnetlib.Base.{
  some_inj, ℕ, suc, ◌+◌, ◌-◌, ◌≡◌, ◌≢◌, refl, sym, ap, Bool, true, false, List, [], ◌∷◌, ◌++◌, some,
  arith, ◌==◌, if◌then◌else◌, Bool-cases, inl, inr,
}
use lnetlib.Server.State.{Server}
use lnetlib.Server.Accepting.{remove, remove_connection}
use lnetlib.Server.Threads.{
  Adding, made, hooked, inside, added, Closing, up, unheard, reporting, removed, missed, report,
  update, found, heard, report_if, count, listed,
}

pub count-append :
    (c d : ℕ) (ds : List ℕ) → count c (ds ++ d ∷ []) ≡ count c ds + (if d == c then 1 else 0)
count-append c d [] = omega arith
count-append c d (x ∷ xs) = omega (arith, count-append c d xs)

pub count-append_self : (c : ℕ) (ds : List ℕ) → count c (ds ++ c ∷ []) ≡ suc (count c ds)
count-append_self c ds = ground (arith, count-append c c ds)

pub count-append_other : (c d : ℕ) (ds : List ℕ) → c ≢ d → count c (ds ++ d ∷ []) ≡ count c ds
count-append_other c d ds h = ground (arith, count-append c d ds, h)

pub count-remove :
    (c d : ℕ) (ds : List ℕ)
    → count c (remove d ds) ≡ (if d == c then count c ds - 1 else count c ds)
unfolding remove
count-remove c d [] = ground arith
count-remove c d (x ∷ xs) = ground (arith, count-remove c d xs)

pub count-remove_self : (c : ℕ) (ds : List ℕ) → count c (remove c ds) ≡ count c ds - 1
count-remove_self c ds = ground (arith, count-remove c c ds)

pub count-remove_other : (c d : ℕ) (ds : List ℕ) → c ≢ d → count c (remove d ds) ≡ count c ds
count-remove_other c d ds h = ground (arith, count-remove c d ds, h)

-- The connection has been put in the list.
abbrev pub in_list : Adding → Bool
in_list made = false
in_list hooked = false
in_list inside = true
in_list added = true

module _ {V : Type 0} where
  pub update_cases :
      (P : ℕ → V → Type 0) (f : ℕ → V) (c : ℕ) (x : V)
      → P c x
      → ((d : ℕ) → d ≢ c → P d (f d))
      → (d : ℕ) → P d (update f c x d)
  update_cases P f c x at_c off d = elim (Bool-cases (d == c)) [
    | inl e ↦ let same : d ≡ c = ground arith in rw (e, same) at_c
    | inr e ↦ let other : d ≢ c = ground arith in rw e (off d other)
  ]

  pub update_other : (f : ℕ → V) (c d : ℕ) (x : V) → d ≢ c → update f c x d ≡ f d
  update_other f c d x h = ground (arith, h)

pub inside_added : (x : Closing) → listed inside x ≡ listed added x
inside_added up = refl
inside_added unheard = refl
inside_added reporting = refl
inside_added removed = refl
inside_added missed = refl

pub inside_one : (x : Closing) → x ≢ removed → listed inside x ≡ 1
inside_one up h = refl
inside_one unheard h = refl
inside_one reporting h = refl
inside_one removed h = absurd (h refl)
inside_one missed h = refl

pub report_if-same :
    (a : Adding) (c : ℕ) (s : Server)
    → ((report_if a c s).connections ≡ s.connections) × ((report_if a c s).locked ≡ s.locked)
unfolding report
report_if-same made c s = (refl, refl)
report_if-same hooked c s = (refl, refl)
report_if-same inside c s = (refl, refl)
report_if-same added c s = (refl, refl)

pub listed-heard : (a : Adding) → listed a up ≡ listed a (heard a)
listed-heard made = refl
listed-heard hooked = refl
listed-heard inside = refl
listed-heard added = refl

pub heard_not_removed : (a : Adding) → heard a ≢ removed
heard_not_removed made h = cc
heard_not_removed hooked h = cc
heard_not_removed inside h = cc
heard_not_removed added h = cc

pub heard_slot : (a : Adding) → heard a ≡ reporting → a ≢ made
heard_slot made h k = cc
heard_slot hooked h k = cc
heard_slot inside h k = cc
heard_slot added h k = cc

pub listed-found : (a : Adding) → listed a reporting - 1 ≡ listed a (found a)
listed-found made = refl
listed-found hooked = refl
listed-found inside = refl
listed-found added = refl

pub found-in_list : (a : Adding) → found a ≡ removed → in_list a ≡ true
found-in_list made h = cc
found-in_list hooked h = cc
found-in_list inside h = refl
found-in_list added h = refl

pub found_not_reporting : (a : Adding) → found a ≢ reporting
found_not_reporting made h = cc
found_not_reporting hooked h = cc
found_not_reporting inside h = cc
found_not_reporting added h = cc

pub remove_connection_lem :
    (c : ℕ) (s s' : Server)
    → remove_connection c s ≡ some s'
    → (s.locked ≡ false) × (s'.connections ≡ remove c s.connections) × (s'.locked ≡ false)
unfolding remove_connection
remove_connection_lem c s s' h = elim (Bool-cases s.locked) [
  | inl e ↦ cc (rw e at h)
  | inr e ↦
      let same = some_inj (rw e at h) in
      (e, ap (λ t. t.connections) (sym same), ap (λ t. t.locked) (sym same))
]
