-- ===== src/Demo/Input.antt =====
-- What the two example programs read from the console by `std::cin >>`.
use lnetlib.Base.{ℕ, Bool, ◌||◌, List, [], ◌∷◌, ◌==◌, leb, ◌&&◌, if◌then◌else◌}

abbrev pub is_space : ℕ → Bool
is_space b = (b == b' ') || (leb 9 b && leb b 13)

unfoldable pub skip_space : List ℕ → List ℕ
skip_space [] = []
skip_space (b ∷ bs) = if is_space b then skip_space bs else b ∷ bs

-- `std::cin >> cmd`: at the end of the input it fails, and the variable keeps what it held.
unfoldable pub next_char : ℕ → List ℕ → ℕ × List ℕ
unfolding skip_space
next_char cmd input = elim (skip_space input) [ [] ↦ (cmd, []) | b ∷ bs ↦ (b, bs) ]

unfoldable pub word : List ℕ → List ℕ × List ℕ
word [] = ([], [])
word (b ∷ bs) = let rest = word bs in if is_space b then ([], b ∷ bs) else (b ∷ rest.0, rest.1)

-- `std::cin >> filename` into an empty string.
unfoldable pub next_word : List ℕ → List ℕ × List ℕ
unfolding word skip_space
next_word input = word (skip_space input)
