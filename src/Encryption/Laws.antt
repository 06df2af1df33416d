-- ===== src/Encryption/Laws.antt =====
-- What the options of encryption.cpp come to, after any sequence of calls.
use lnetlib.Base.{
  ℕ, zero, suc, ◌<◌, ◌^◌, ◌≡◌, refl, ap, ◌∙◌, Bool, List, [], ◌∷◌, ◌++◌, Option, none, some, length,
  take, drop, take-append, ltb, lt→ltb, Bool-cases, inl, inr,
}
use mathlib.Core.Path.{subst}
use lnetlib.Encryption.Files.{
  Text, Files, FileView, absent, present, filled, read_view, read_binary_file,
}
use lnetlib.Encryption.Options.{
  Method, Tls, Encryption, Outcome, done, thrown, unreadable, encryption, init, set_enabled,
  with_context, use_ca_file, use_ca_bytes, set_ca_filename, set_cert_filename,
  set_private_key_filename, set_verify_mode, set_verify_callback,
}

abbrev pub after : {A : Type 0} → Outcome A → A
after (done a) = a
after (thrown a) = a

-- The calls that a program can make to set the options.
pub data Call (T : Tls) : Type 0 where
  initial : Method → Call T
  enable : Bool → Call T
  ca : Text → Call T
  cert : Text → Call T
  private_key : Text → Call T
  mode : ℕ → Call T
  callback : Option (Bool → T.Certificate → Bool) → Call T

module _ {T : Tls} (files : Files) where
  pub call : Call T → Encryption T → Encryption T
  call (Call.initial m) e = init m e
  call (Call.enable b) e = set_enabled b e
  call (Call.ca name) e = after (set_ca_filename files name e)
  call (Call.cert name) e = after (set_cert_filename name e)
  call (Call.private_key name) e = after (set_private_key_filename name e)
  call (Call.mode n) e = set_verify_mode n e
  call (Call.callback c) e = set_verify_callback c e

  pub calls : List (Call T) → Encryption T → Encryption T
  calls [] e = e
  calls (c ∷ cs) e = calls cs (call c e)

-- The error that a CA file leaves, by what the name stands for: the empty name, and a file with at
-- least one byte or too large to be read, leave none.
abbrev pub view_error : FileView → Text
view_error absent = unreadable
view_error (present none content) = []
view_error (present (some zero) content) = unreadable
view_error (present (some (suc n)) content) = []

abbrev pub ca_error : Files → Text → Text
ca_error files [] = []
ca_error files (b ∷ bs) = view_error (files.view (b ∷ bs))

-- The error that is pending after some calls: that of the last call that can set or clear it.
abbrev pub pending : {T : Tls} → Files → Text → List (Call T) → Text
pending files t [] = t
pending files t (initial m ∷ cs) = pending files [] cs
pending files t (ca name ∷ cs) = pending files (ca_error files name) cs
pending files t (enable b ∷ cs) = pending files t cs
pending files t (cert name ∷ cs) = pending files t cs
pending files t (private_key name ∷ cs) = pending files t cs
pending files t (mode n ∷ cs) = pending files t cs
pending files t (callback c ∷ cs) = pending files t cs

-- What the object says afterwards about its CA file and its last error.
abbrev Says : {T : Tls} → Encryption T → Text → Text → Type 0
Says e name error = (e.ca_filename ≡ name) × (e.last_error ≡ error)

take_all : (xs : List ℕ) → take (length xs) xs ≡ xs
take_all [] = refl
take_all (x ∷ xs) = ap (◌∷◌ x) (take_all xs)

pub filled_whole :
    (heap content : List ℕ) (n : ℕ) → length content ≡ n → filled heap content n ≡ content
filled_whole heap content n len =
    let all : take n content ≡ content =
      subst (λ k. take k content ≡ content) len (take_all content) in
    rw all (
      subst (λ k. take k (content ++ drop (length content) heap) ≡ content) len
        (take-append content _))

module _ {T : Tls} (files : Files) where
  with_context-Says :
      (e : Encryption T) (r : Option T.Context)
      → Says (after (with_context e r)) e.ca_filename e.last_error
  unfolding with_context
  with_context-Says e none = (refl, refl)
  with_context-Says e (some x) = (refl, refl)

  use_ca_file-Says :
      (v : FileView) (e : Encryption T)
      → e.last_error ≡ []
      → Says (after (use_ca_file e (read_view files.heap v))) e.ca_filename (view_error v)
  unfolding use_ca_file read_view use_ca_bytes
  use_ca_file-Says absent e h = (refl, refl)
  use_ca_file-Says (present none content) e h = (refl, h)
  use_ca_file-Says (present (some zero) content) e h = (refl, refl)
  use_ca_file-Says (present (some (suc n)) content) e h = elim (Bool-cases (ltb (suc n) (2 ^ 63))) [
    | inl small ↦ rw small (let s = with_context-Says e _ in (s.0, s.1 ∙ h))
    | inr large ↦ rw large (refl, h)
  ]

  pub set_ca_filename-Says :
      (name : Text) (e : Encryption T)
      → Says (after (set_ca_filename files name e)) e.ca_filename (ca_error files name)
  unfolding set_ca_filename read_binary_file
  set_ca_filename-Says [] e = (refl, refl)
  set_ca_filename-Says (b ∷ bs) e =
      use_ca_file-Says (files.view (b ∷ bs)) (record e { last_error = [] }) refl

  calls-Says :
      (cs : List (Call T)) (e : Encryption T)
      → e.ca_filename ≡ []
      → Says (calls files cs e) [] (pending files e.last_error cs)
  unfolding calls call init set_enabled set_cert_filename set_private_key_filename set_verify_mode
      set_verify_callback
  calls-Says [] e h = (h, refl)
  calls-Says (initial m ∷ cs) e h = calls-Says cs _ refl
  calls-Says (enable b ∷ cs) e h = calls-Says cs _ h
  calls-Says (ca name ∷ cs) e h =
      let s = set_ca_filename-Says name e in
      let t = calls-Says cs (after (set_ca_filename files name e)) (s.0 ∙ h) in
      (t.0, t.1 ∙ ap (λ x. pending files x cs) s.1)
  calls-Says (cert name ∷ cs) e h =
      let s =
        with_context-Says (record e { cert_filename = name })
          (T.use_certificate_file name e.context) in
      let t = calls-Says cs _ (s.0 ∙ h) in (t.0, t.1 ∙ ap (λ x. pending files x cs) s.1)
  calls-Says (private_key name ∷ cs) e h =
      let s =
        with_context-Says (record e { private_key_filename = name })
          (T.use_private_key_file name e.context) in
      let t = calls-Says cs _ (s.0 ∙ h) in (t.0, t.1 ∙ ap (λ x. pending files x cs) s.1)
  calls-Says (mode n ∷ cs) e h = calls-Says cs _ h
  calls-Says (callback c ∷ cs) e h = calls-Says cs _ h

  -- Whatever options are set on a new object, the error that is pending afterwards is the one of
  -- the last call that sets or clears it: a CA file that is absent or empty leaves its error, a CA
  -- file that can be read, an empty name and `init` leave none, and no other call counts.
  pub calls-last_error :
      (cs : List (Call T)) → (calls files cs (encryption T)).last_error ≡ pending files [] cs
  unfolding encryption
  calls-last_error cs = (calls-Says cs (encryption T) refl).1

  -- Whatever options are set on a new object, the name of the CA file is not kept: its getter gives
  -- the empty text.
  pub calls-ca_filename : (cs : List (Call T)) → (calls files cs (encryption T)).ca_filename ≡ []
  unfolding encryption
  calls-ca_filename cs = (calls-Says cs (encryption T) refl).0

  -- A CA file under a name that is not empty, with at least one and fewer than 2 ^ 63 bytes, all of
  -- which are read, is handed to the context whole and unchanged, and the earlier error is cleared.
  pub set_ca_filename_whole :
      (b n : ℕ) (bs content : List ℕ) (e : Encryption T)
      → files.view (b ∷ bs) ≡ present (some (suc n)) content
      → length content ≡ suc n
      → suc n < 2 ^ 63
      → set_ca_filename files (b ∷ bs) e
        ≡ with_context
            (record e { last_error = [] })
            (T.add_certificate_authority content e.context)
  unfolding set_ca_filename read_binary_file read_view use_ca_file use_ca_bytes
  set_ca_filename_whole b n bs content e there len small =
      let whole = filled_whole files.heap content (suc n) len in
      rw (there, lt→ltb (suc n) (2 ^ 63) small, whole) refl
