-- ===== src/Demo/Setup.antt =====
-- What the mains of the two example programs do before they start: the options of TLS, and the
-- slots that write to the console (example/server/main.cpp and example/client/main.cpp).
use lnetlib.Base.{ℕ, ◌≡◌, refl, sym, ap, ◌∙◌, Bool, true, [], ◌∷◌, some}
use lnetlib.Encryption.Files.{Text, Files}
use lnetlib.Encryption.Options.{
  Tls, Encryption, Outcome, done, thrown, tlsv11, init, set_enabled, with_context, set_ca_filename,
  set_cert_filename, set_private_key_filename, set_verify_mode, set_verify_callback,
}
use lnetlib.Encryption.Laws.{view_error, set_ca_filename-Says, after}
use lnetlib.Server.State.{Server, Program, server}
use lnetlib.Server.Starting.{Surroundings, start, start_checked}
use lnetlib.Server.Launch.{start_idle}

-- "ca.crt"
abbrev pub ca_crt : Text
ca_crt = b'c' ∷ b'a' ∷ b'.' ∷ b'c' ∷ b'r' ∷ b't' ∷ []

-- The next statement, unless an exception leaves `main`.
abbrev pub then_do : {A : Type 0} → Outcome A → (A → Outcome A) → Outcome A
then_do (done a) f = f a
then_do (thrown a) f = thrown a

-- The calls before the CA file.
abbrev pub prepared : {T : Tls} → (Bool → T.Certificate → Bool) → Encryption T → Encryption T
prepared callback e = set_verify_callback (some callback) (init tlsv11 e)

-- The names of the two files and the mode are what differs between the programs.
module _ {T : Tls} (files : Files) (cert private_key : Text) (mode : ℕ)
    (callback : Bool → T.Certificate → Bool) where
  unfoldable pub setup : Encryption T → Outcome (Encryption T)
  setup e = then_do (set_ca_filename files ca_crt (prepared callback e)) (λ e1.
      then_do (set_cert_filename cert e1) (λ e2.
        then_do (set_private_key_filename private_key e2)
          (λ e3. done (set_enabled true (set_verify_mode mode e3)))))

-- The server whose encryption object is `e`.
abbrev pub configured : {T : Tls} → Encryption T → Server
configured e = record server { encryption_enabled = e.enabled; last_error = e.last_error }

module _ {T : Tls} (files : Files) (cert private_key : Text) (mode : ℕ)
    (callback : Bool → T.Certificate → Bool) where
  -- When the TLS library takes the three files, main goes on to `start` with the options that it
  -- has set, and all that `start` goes by is what the CA file was: with one that is absent or empty
  -- it emits an error and never listens, and with any other it goes on to open the acceptor.
  pub setup-start :
      (p : Program) (around : Surroundings) (e e1 : Encryption T) (x y : T.Context)
      → set_ca_filename files ca_crt (prepared callback e) ≡ done e1
      → T.use_certificate_file cert e1.context ≡ some x
      → T.use_private_key_file private_key x ≡ some y
      → (e' : Encryption T) × (setup files cert private_key mode callback e ≡ done e')
        × (e'.enabled ≡ true)
        × (e'.verify_mode ≡ mode)
        × (e'.context ≡ y)
        × ((e'.cert_filename ≡ cert) × (e'.private_key_filename ≡ private_key))
        × (start p around (configured e')
            ≡ start_checked p around (view_error (files.view ca_crt)) (configured e'))
  unfolding setup set_cert_filename set_private_key_filename with_context set_verify_mode
      set_enabled
  setup-start p around e e1 x y ca certificate key =
      let e' : Encryption T = record e1 {
        cert_filename = cert;
        private_key_filename = private_key;
        context = y;
        verify_mode = mode;
        enabled = true;
      } in
      let pending : e1.last_error ≡ view_error (files.view ca_crt) =
        ap (λ (o : Outcome (Encryption T)). (after o).last_error) (sym ca)
        ∙ (set_ca_filename-Says files ca_crt (prepared callback e)).1 in
      (
        e',
        rw (ca, certificate, key) refl,
        refl,
        refl,
        refl,
        (refl, refl),
        start_idle p around (configured e') (unfold server in refl)
            ∙ ap (λ t. start_checked p around t (configured e')) pending,
      )
