-- ===== src/Session/Integrity.antt =====
-- What the operations can do to the file of the record: whichever calls fail, it stays, goes away,
-- or becomes a whole private file with a valid record.
pub mod Load
pub mod Operations
use podlaz.Common.{
  suc, ap, ◌≤◌, ◌≡◌, ◌⊎◌, inl, inr, Bool, true, false, Option, none, some, Result, ok, err, arith,
  refl, ltb,
}
use podlaz.Files.{atomic_write-target}
use podlaz.Session.Model.{SessionState, Error, state_schema_version, private_mode, max_state_bytes}
use podlaz.Session.Model
use podlaz.Session.Validation.{validate_session_state}
use podlaz.Session.Validation.Sound.{validate_session_state-IsSessionState}
use podlaz.Session.Io.{
  Env, World, M, ◌>>=◌, ◌>>◌, pure, throw, lift, guard, after, SessionFile, encode_state, call,
  save, replace_file, remove_file,
}

-- A private file within the bound that holds one valid record.
pub record IsSoundFile (f : SessionFile) (s : SessionState) : Type 0 where
  pub private : f.perm ≡ private_mode
  pub bounded : f.size ≤ max_state_bytes
  pub header : f.header ≡ some state_schema_version
  pub decoded : f.as_state ≡ some s
  pub valid : validate_session_state s ≡ ok tt

abbrev pub Evolves : World → World → Type 0
Evolves d d' =
    (d'.target ≡ d.target)
    ⊎ (d'.target ≡ none)
    ⊎ ((f : SessionFile) × (s : SessionState) × (d'.target ≡ some f) × IsSoundFile f s)

pub Evolves-trans : (d e g : World) → Evolves d e → Evolves e g → Evolves d g
Evolves-trans d e g h k = ground arith

pub record IsCareful {A : Type 0} (m : M A) : Type 0 where
  pub at : (d : World) → Evolves d (m d).1

after-Evolves :
    {A B : Type 0} (f : A → M B) (d : World) (r : Result Error A × World)
    → ((a : A) → IsCareful (f a))
    → Evolves d r.1
    → Evolves d (after f r).1
after-Evolves f d (ok a, e) c h = Evolves-trans d e (f a e).1 h ((c a).at e)
after-Evolves f d (err x, e) c h = h

pub bind-IsCareful :
    {A B : Type 0} (m : M A) (f : A → M B)
    → IsCareful m
    → ((a : A) → IsCareful (f a))
    → IsCareful (m >>= f)
bind-IsCareful m f h k = record { at = λ d. after-Evolves f d (m d) k (h.at d) }

pub pure-IsCareful : {A : Type 0} (r : Result Error A) → IsCareful (lift r)
pure-IsCareful r = record { at = λ d. inl refl }

pub guard-IsCareful : (b : Bool) (e : Error) → IsCareful (guard b e)
guard-IsCareful true e = pure-IsCareful (err e)
guard-IsCareful false e = pure-IsCareful (ok tt)

pub guard-then :
    {A : Type 0} (b : Bool) (e : Error) (k : M A) → IsCareful k → IsCareful (guard b e >> k)
guard-then b e k h = bind-IsCareful (guard b e) (λ _. k) (guard-IsCareful b e) λ _. h

-- The same, with what the test or the value that was lifted has shown.
pub guard-bind-IsCareful :
    {A : Type 0} (b : Bool) (e : Error) (k : M A)
    → (b ≡ false → IsCareful k)
    → IsCareful (guard b e >> k)
guard-bind-IsCareful true e k h = pure-IsCareful (err e)
guard-bind-IsCareful false e k h = record { at = λ d. (h refl).at d }

pub lift-IsCareful :
    {A B : Type 0} (r : Result Error A) (f : A → M B)
    → ((a : A) → r ≡ ok a → IsCareful (f a))
    → IsCareful (lift r >>= f)
lift-IsCareful (ok a) f h = record { at = λ d. (h a refl).at d }
lift-IsCareful (err e) f h = pure-IsCareful (err e)

module _ (env : Env) where
  pub call-IsCareful : (e : Error) → IsCareful (call env e)
  unfolding call
  call-IsCareful e = record { at = λ d. ground arith }

  pub remove_file-IsCareful : IsCareful (remove_file env)
  unfolding remove_file
  remove_file-IsCareful = record { at = λ d. ground arith }

  pub call-then : {A : Type 0} (e : Error) (k : M A) → IsCareful k → IsCareful (call env e >> k)
  call-then e k h = bind-IsCareful (call env e) (λ _. k) (call-IsCareful e) λ _. h

  pub encode-IsSoundFile :
      (s : SessionState)
      → validate_session_state s ≡ ok tt
      → env.encoded_size s ≤ max_state_bytes
      → IsSoundFile (encode_state env s) s
  unfolding encode_state
  encode-IsSoundFile s v h = record {
    private = refl;
    bounded = h;
    header = ap some (validate_session_state-IsSessionState s v).schema;
    decoded = refl;
    valid = v;
  }

  replace_file-Evolves :
      (s : SessionState) (d : World)
      → validate_session_state s ≡ ok tt
      → env.encoded_size s ≤ max_state_bytes
      → Evolves d (replace_file env s d).1
  unfolding replace_file
  replace_file-Evolves s d v h =
      elim (atomic_write-target env.fails env.torn (encode_state env s) d) [
        | inl e ↦ inl e
        | inr e ↦ inr (inr (encode_state env s, s, e, encode-IsSoundFile s v h))
      ]

  -- Behind the validation and the test of the size.
  write-IsCareful :
      (s : SessionState)
      → validate_session_state s ≡ ok tt
      → env.encoded_size s ≤ max_state_bytes
      → IsCareful (replace_file env s)
  write-IsCareful s v h = record { at = λ d. replace_file-Evolves s d v h }

  pub save-IsCareful : (s : SessionState) → IsCareful (save env s)
  unfolding save
  save-IsCareful s = lift-IsCareful (validate_session_state s) _ λ u v.
      guard-bind-IsCareful (ltb max_state_bytes (env.encoded_size s)) Model.too_large _ λ small.
        bind-IsCareful (call env Model.create_directory_failed) _ (call-IsCareful _)
          λ _. write-IsCareful s v (ground arith)
