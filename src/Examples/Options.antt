-- ===== src/Examples/Options.antt =====
-- The theorems on encryption at concrete options.
use lnetlib.Base.{ℕ, ◌≡◌, zero, suc, true, List, [], ◌∷◌, ◌++◌, none, some}
use lnetlib.Encryption.Files.{Text, Files, FileView, absent, present}
use lnetlib.Encryption.Options.{tlsv12, Tls, encryption}
use lnetlib.Encryption.Laws.{Call, initial, enable, ca, cert, calls, calls-last_error}

-- A context of the TLS library is the list of the texts that it was given.
abbrev tls : Tls
tls = record {
  Context = List Text;
  Certificate = ℕ;
  new_context = λ m. [];
  add_certificate_authority = λ text c. some (c ++ text ∷ []);
  use_certificate_file = λ text c. some (c ++ text ∷ []);
  use_private_key_file = λ text c. none;
}

abbrev view : Text → FileView
view [] = absent
view (zero ∷ name) = absent
view (suc n ∷ name) = present (some 2) (45 ∷ 10 ∷ [])

abbrev files : Files
files = record { view = view; heap = 7 ∷ 7 ∷ 7 ∷ [] }

abbrev settings : List (Call tls)
settings = initial tlsv12 ∷ ca (0 ∷ []) ∷ enable true ∷ ca (1 ∷ []) ∷ cert (3 ∷ []) ∷ []

calls-last_error_example : (calls files settings (encryption tls)).last_error ≡ []
calls-last_error_example = calls-last_error files settings
