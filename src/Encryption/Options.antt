-- ===== src/Encryption/Options.antt =====
-- The class `encryption` (encryption.h and encryption.cpp). The context of the TLS library is a
-- parameter.
use lnetlib.Base.{ℕ, zero, suc, Bool, false, List, [], ◌∷◌, Option, none, some}
use lnetlib.Encryption.Files.{Text, Files, File, read_binary_file}

pub data Method : Type 0 where
  sslv2 sslv3 tlsv1 sslv23 tlsv11 tlsv12 : Method

-- What the source calls of the TLS library. `none`: the call throws, and the context is as before.
pub record Tls : Type 1 where
  pub Context : Type 0
  pub Certificate : Type 0
  pub new_context : Method → Context
  pub add_certificate_authority : List ℕ → Context → Option Context
  pub use_certificate_file : Text → Context → Option Context
  pub use_private_key_file : Text → Context → Option Context

pub record Encryption (T : Tls) : Type 0 where
  pub enabled : Bool
  pub method : Method
  pub ca_filename : Text
  pub cert_filename : Text
  pub private_key_filename : Text
  pub verify_mode : ℕ
  pub verify_callback : Option (Bool → T.Certificate → Bool)
  pub context : T.Context
  pub last_error : Text

-- A call that returned, or that left by an exception; both with the object as it then is.
pub data Outcome (A : Type 0) : Type 0 where
  done : A → Outcome A
  thrown : A → Outcome A

-- "Can't read CA file".
abbrev pub unreadable : Text
unreadable =
    67 ∷ 97 ∷ 110 ∷ 39 ∷ 116 ∷ 32 ∷ 114 ∷ 101 ∷ 97 ∷ 100 ∷ 32 ∷ 67 ∷ 65 ∷ 32 ∷ 102 ∷ 105 ∷ 108 ∷ 101
    ∷ []

module _ (T : Tls) where
  -- The constructor; `ssl_verify_none` is 0.
  unfoldable pub encryption : Encryption T
  encryption = record {
    enabled = false;
    method = tlsv11;
    ca_filename = [];
    cert_filename = [];
    private_key_filename = [];
    verify_mode = 0;
    verify_callback = none;
    context = T.new_context tlsv11;
    last_error = [];
  }

module _ {T : Tls} where
  unfoldable pub init : Method → Encryption T → Encryption T
  init method e = record e {
    method = method;
    ca_filename = [];
    cert_filename = [];
    private_key_filename = [];
    verify_mode = 0;
    verify_callback = none;
    context = T.new_context method;
    last_error = [];
  }

  unfoldable pub set_enabled : Bool → Encryption T → Encryption T
  set_enabled enabled e = record e { enabled = enabled }

  -- The object with a context that a call of the TLS library gave, or as it was if the call threw.
  unfoldable pub with_context : Encryption T → Option T.Context → Outcome (Encryption T)
  with_context e none = thrown e
  with_context e (some context) = done (record e { context = context })

  -- A file of which at least one byte can be had is handed on, and any other is an error.
  unfoldable pub use_ca_bytes : Encryption T → ℕ → List ℕ → Outcome (Encryption T)
  use_ca_bytes e zero content = done (record e { last_error = unreadable })
  use_ca_bytes e (suc n) content = with_context e (T.add_certificate_authority content e.context)

  unfoldable pub use_ca_file : Encryption T → Option File → Outcome (Encryption T)
  use_ca_file e none = thrown e
  use_ca_file e (some file) = use_ca_bytes e file.size file.content

  unfoldable pub set_ca_filename : Files → Text → Encryption T → Outcome (Encryption T)
  set_ca_filename files [] e = done (record e { last_error = [] })
  set_ca_filename files (b ∷ bs) e =
      use_ca_file (record e { last_error = [] }) (read_binary_file files (b ∷ bs))

  unfoldable pub set_cert_filename : Text → Encryption T → Outcome (Encryption T)
  set_cert_filename name e =
      with_context (record e { cert_filename = name }) (T.use_certificate_file name e.context)

  unfoldable pub set_private_key_filename : Text → Encryption T → Outcome (Encryption T)
  set_private_key_filename name e =
      with_context (record e { private_key_filename = name })
        (T.use_private_key_file name e.context)

  unfoldable pub set_verify_mode : ℕ → Encryption T → Encryption T
  set_verify_mode mode e = record e { verify_mode = mode }

  unfoldable pub set_verify_callback :
      Option (Bool → T.Certificate → Bool) → Encryption T → Encryption T
  set_verify_callback callback e = record e { verify_callback = callback }

  unfoldable pub verify_certificate : Encryption T → Bool → T.Certificate → Bool
  verify_certificate e preverified certificate = elim e.verify_callback [
    | none ↦ preverified
    | some callback ↦ callback preverified certificate
  ]
