-- ===== src/Session/Durability.antt =====
-- What an operation returns is what the file holds.
pub mod Load
pub mod Operations
pub mod Removal
use podlaz.Common.{
  suc, ap, ◌≡◌, Bool, true, false, Option, none, some, Result, ok, err, arith, refl, ltb,
}
use podlaz.Files.{atomic_write-eq-ok}
use podlaz.Session.Model.{SessionState, Error, max_state_bytes}
use podlaz.Session.Model
use podlaz.Session.Validation.{validate_session_state}
use podlaz.Session.Io.{
  Env, World, M, pure, after, SessionFile, encode_state, call, save, replace_file,
}
use podlaz.Session.Integrity.{IsSoundFile, encode-IsSoundFile}

-- The file is private, within the bound, and holds the record.
abbrev pub Stores : World → SessionState → Type 0
Stores d s = (f : SessionFile) × (d.target ≡ some f) × IsSoundFile f s

pub after-eq-ok :
    {A B : Type 0} (f : A → M B) (x : Result Error A × World) {b : B} {d' : World}
    → after f x ≡ (ok b, d')
    → (a : A) × (e : World) × (x ≡ (ok a, e)) × (f a e ≡ (ok b, d'))
after-eq-ok f (ok a, e) h = (a, e, refl, h)
after-eq-ok f (err x, e) h = ground arith

-- The same, where nothing but a value follows.
pub after-pure-eq-ok :
    {A B : Type 0} (b : B) (x : Result Error A × World) {b' : B} {d' : World}
    → after (λ _. pure b) x ≡ (ok b', d')
    → (a : A) × (x ≡ (ok a, d')) × (b ≡ b')
after-pure-eq-ok b (ok a, e) h = (a, ground arith, ground arith)
after-pure-eq-ok b (err x, e) h = ground arith

module _ (env : Env) where
  pub save-Stores :
      (s : SessionState) (d : World) {d' : World} → save env s d ≡ (ok tt, d') → Stores d' s
  unfolding save replace_file call
  save-Stores s d h = (
    encode_state env s,
    ground (
      arith,
      atomic_write-eq-ok env.fails env.torn (encode_state env s) (record d { calls = suc d.calls }),
    ),
    encode-IsSoundFile env s (ground arith) (ground arith),
  )
