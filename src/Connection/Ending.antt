-- ===== src/Connection/Ending.antt =====
-- What a connection emits when a read or a write fails (connection.cpp), where the slots leave it
-- alone.
use lnetlib.Base.{
  ℕ, ◌≡◌, refl, false, ◌||◌, List, [], ◌∷◌, ◌++◌, append-nil, some, ◌==◌, if◌then◌else◌, Bool-cases,
  inl, inr,
}
use lnetlib.Streambuf.{Streambuf}
use lnetlib.Connection.State.{
  Effect, closed, error, Connection, Program, check_error, emit_closed, emit_error,
  no_such_file_or_directory, ssl_short_read,
}
use lnetlib.Connection.Reads.{reads}

-- The slots for `closed` and `error` return and leave the connection alone.
pub record IsDeaf {B : Streambuf} {K : Type 0} (q : Program B K) : Type 0 where
  pub closed_deaf : (c : Connection B K) → q.on_closed c ≡ some c
  pub error_deaf : (code : ℕ) (c : Connection B K) → q.on_error code c ≡ some c

module _ {B : Streambuf} {K : Type 0} where
  -- Nothing at the code of an aborted operation, `closed` at the two codes by which a peer leaves.
  abbrev pub ending : ℕ → ℕ → List (Effect B K)
  ending aborted code =
      if code == aborted
      then []
      else if (code == no_such_file_or_directory) || (code == ssl_short_read)
      then closed ∷ []
      else error code ∷ []

  pub check_error-ending :
      (q : Program B K) (c : Connection B K) (code : ℕ)
      → IsDeaf q
      → check_error q c (some code)
        ≡ some (false, record c { trace = c.trace ++ ending q.operation_aborted code })
  unfolding check_error emit_closed emit_error
  check_error-ending q c code deaf = elim (Bool-cases (code == q.operation_aborted)) [
    | inl e0 ↦ rw (e0, append-nil) refl
    | inr e0 ↦ elim (Bool-cases (code == no_such_file_or_directory)) [
      | inl e1 ↦ rw (e0, e1, deaf.closed_deaf) refl
      | inr e1 ↦ elim (Bool-cases (code == ssl_short_read)) [
        | inl e2 ↦ rw (e0, e1, e2, deaf.closed_deaf) refl
        | inr e2 ↦ rw (e0, e1, e2, deaf.error_deaf) refl
      ]
    ]
  ]

  -- To split on the three outcomes of a code.
  pub ending_cases :
      (P : List (Effect B K) → Type 0) (aborted code : ℕ)
      → P []
      → P (closed ∷ [])
      → P (error code ∷ [])
      → P (ending aborted code)
  ending_cases P aborted code p q r = elim (Bool-cases (code == aborted)) [
    | inl e0 ↦ rw e0 p
    | inr e0 ↦ elim (Bool-cases ((code == no_such_file_or_directory) || (code == ssl_short_read))) [
      | inl e1 ↦ rw (e0, e1) q
      | inr e1 ↦ rw (e0, e1) r
    ]
  ]

pub reads-ending :
    (B : Streambuf) (K : Type 0) (aborted code : ℕ)
    → reads (ending {B = B} {K = K} aborted code) ≡ []
reads-ending B K aborted code = ending_cases (λ xs. reads xs ≡ []) aborted code refl refl refl
