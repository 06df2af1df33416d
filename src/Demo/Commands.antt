-- ===== src/Demo/Commands.antt =====
-- The commands that the two example programs exchange, and their texts (example/server/main.cpp and
-- example/client/main.cpp).
use lnetlib.Base.{
  ℕ, arith, ◌≢◌, Bool, true, not, ◌&&◌, All, ◌%◌, ◌^◌, ◌≡◌, refl, List, [], ◌∷◌, Option, none, some,
  ◌==◌, if◌then◌else◌,
}

-- `enum class Command`, the same in both programs.
pub data Command : Type 0 where
  hello goodbye quit send_file message : Command

-- `static_cast<uint64_t>`, by which a stream is opened.
abbrev pub number : Command → ℕ
number hello = 0
number goodbye = 1
number quit = 2
number send_file = 3
number message = 4

unfoldable pub label : ℕ → Option Command
label n =
    if n == 0
    then some hello
    else if n == 1
    then some goodbye
    else if n == 2
    then some quit
    else if n == 3
    then some send_file
    else if n == 4
    then some message
    else none

-- `stream->command<Command>()`: the enumeration has the values of an int, of 32 bits. `none`: a
-- value for which a `switch` has no label.
unfoldable pub command_of : ℕ → Option Command
unfolding label
command_of n = label (n % 2 ^ 32)

-- "ready\nsteady\ngo!\n"
abbrev pub ready : List ℕ
ready =
    b'r' ∷ b'e' ∷ b'a' ∷ b'd' ∷ b'y' ∷ b'\n' ∷ b's' ∷ b't' ∷ b'e' ∷ b'a' ∷ b'd' ∷ b'y' ∷ b'\n'
    ∷ b'g' ∷ b'o' ∷ b'!' ∷ b'\n' ∷ []

-- "I'm server!\n"
abbrev pub greeting : List ℕ
greeting = b'I' ∷ 39 ∷ b'm' ∷ b' ' ∷ b's' ∷ b'e' ∷ b'r' ∷ b'v' ∷ b'e' ∷ b'r' ∷ b'!' ∷ b'\n' ∷ []

pub command_of-number : (command : Command) → command_of (number command) ≡ some command
unfolding command_of
command_of-number hello = refl
command_of-number goodbye = refl
command_of-number quit = refl
command_of-number send_file = refl
command_of-number message = refl

-- No byte of a text is zero, by computation.
abbrev has_no_zero : List ℕ → Bool
has_no_zero [] = true
has_no_zero (b ∷ bs) = not (b == 0) && has_no_zero bs

has_no_zero-All : (bs : List ℕ) → has_no_zero bs ≡ true → All (λ b. b ≢ 0) bs
has_no_zero-All [] h = tt
has_no_zero-All (b ∷ bs) h = (λ z. cc (rw z at h), has_no_zero-All bs (ground (arith, h)))

pub ready-All : All (λ b. b ≢ 0) ready
ready-All = has_no_zero-All ready refl

pub greeting-All : All (λ b. b ≢ 0) greeting
greeting-All = has_no_zero-All greeting refl
