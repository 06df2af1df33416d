-- ===== src/Streambuf.antt =====
-- What the library relies on of the byte buffers it is given (the third-party streambuf that
-- ostream.h, istream.h and connection.h use): a buffer holds a sequence of bytes, a write goes to
-- its end and a read takes from its front as many bytes as there are, up to the number asked for.
use lnetlib.Base.{ℕ, ◌≡◌, refl, List, [], ◌++◌, take, drop}

pub record Streambuf : Type 1 where
  pub Buffer : Type 0
  pub new_buffer : Buffer
  pub sputn : Buffer → List ℕ → Buffer
  pub sgetn : ℕ → Buffer → List ℕ
  pub consume : ℕ → Buffer → Buffer
  -- The readable bytes, which the source takes by `data()`.
  pub bytes : Buffer → List ℕ
  pub bytes-new_buffer : bytes new_buffer ≡ []
  pub bytes-sputn : (b : Buffer) (bs : List ℕ) → bytes (sputn b bs) ≡ bytes b ++ bs
  pub sgetn_lem : (n : ℕ) (b : Buffer) → sgetn n b ≡ take n (bytes b)
  pub bytes-consume : (n : ℕ) (b : Buffer) → bytes (consume n b) ≡ drop n (bytes b)

-- A buffer that is its list of bytes meets these laws.
abbrev pub list_streambuf : Streambuf
list_streambuf = record {
  Buffer = List ℕ;
  new_buffer = [];
  sputn = λ b bs. b ++ bs;
  sgetn = λ n b. take n b;
  consume = λ n b. drop n b;
  bytes = λ b. b;
  bytes-new_buffer = refl;
  bytes-sputn = λ b bs. refl;
  sgetn_lem = λ n b. refl;
  bytes-consume = λ n b. refl;
}
