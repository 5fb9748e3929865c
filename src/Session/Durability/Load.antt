-- ===== src/Session/Durability/Load.antt =====
-- A record that is loaded is valid, of this boot, and what the file holds.
use mathlib.Core.Path.{subst}
use podlaz.Common.{
  suc, ◌≡◌, ◌≢◌, ◌≤◌, ◌∙◌, inl, inr, Bool-cases, Option, none, some, ok, err, Check, arith, refl,
  Str, str_eq, str_eq_iff, trim_space,
}
use podlaz.Session.Model.{
  SessionState, Continuation, Error, private_mode, state_schema_version,
  continuation_schema_version, max_state_bytes,
}
use podlaz.Session.Validation.{validate_session_state, validate_continuation}
use podlaz.Session.Io.{
  Env, World, M, pure, lift, SessionFile, save, call, new_session_id, discard_if_stale,
  adopt_continuation, migrated, migrate_valid, reject_continuation, migrate_continuation,
  load_state, dispatch_schema, read_file, load_locked, remove_file,
}
use podlaz.Session.Durability.{Stores, after-eq-ok, after-pure-eq-ok, save-Stores}

module _ (env : Env) where
  -- What follows a boot id that matches starts from the same file.
  discard_if_stale-eq-some :
      {A : Type 0} (recorded : Str) (next : M (Option A)) (d : World) {a : A} {d' : World}
      → discard_if_stale env recorded next d ≡ (ok (some a), d')
      → (e : World) × (e.target ≡ d.target)
        × (next e ≡ (ok (some a), d'))
        × (recorded ≡ trim_space env.boot_id)
  unfolding discard_if_stale call
  discard_if_stale-eq-some recorded next d h = (
    record d { calls = suc d.calls },
    refl,
    ground arith,
    ground (arith, str_eq_iff recorded (trim_space env.boot_id)),
  )

  adopt-Stores :
      (c : Continuation) (d : World) (s : SessionState) (d' : World)
      → adopt_continuation env c d ≡ (ok (some s), d')
      → Stores d' s × (s.boot_id ≡ c.boot_id)
  unfolding adopt_continuation
  adopt-Stores c d s d' h =
      let (id, e, _, h1) = after-eq-ok _ (new_session_id env d) h in
      let (u, saved, same) =
        after-pure-eq-ok (some (migrated c id)) (save env (migrated c id) e) h1 in
      let same' : migrated c id ≡ s = ground arith in
      (subst (Stores d') same' (save-Stores env (migrated c id) e saved), ground arith)

  -- A record of this boot that the file holds.
  abbrev pub Loads : World → SessionState → Type 0
  Loads d s = Stores d s × (s.boot_id ≡ trim_space env.boot_id)

  pub not-reject-eq-ok :
      (x : Error) (r : Check Error × World) {o : Option SessionState} {d' : World}
      → reject_continuation x r ≢ (ok o, d')
  unfolding reject_continuation
  not-reject-eq-ok x (ok _, g) k = ground arith
  not-reject-eq-ok x (err _, g) k = ground arith

  migrate_valid-Loads :
      (c : Continuation) (r : Check Error) (d : World) (s : SessionState) (d' : World)
      → migrate_valid env c r d ≡ (ok (some s), d')
      → Loads d' s
  unfolding migrate_valid
  migrate_valid-Loads c (ok _) d s d' h =
      let (e, _, adopted, current) =
        discard_if_stale-eq-some c.boot_id (adopt_continuation env c) d h in
      let (stored, boot) = adopt-Stores c e s d' adopted in (stored, boot ∙ current)
  migrate_valid-Loads c (err x) d s d' h = absurd (not-reject-eq-ok x (remove_file env d) h)

  migrate-Loads :
      (o : Option Continuation) (d : World) (s : SessionState) (d' : World)
      → migrate_continuation env o d ≡ (ok (some s), d')
      → Loads d' s
  unfolding migrate_continuation
  migrate-Loads none d s d' h = absurd (ground arith)
  migrate-Loads (some c) d s d' h = migrate_valid-Loads c (validate_continuation c) d s d' h

  -- The facts about the file that come before its schema is read.
  record IsReadable (f : SessionFile) : Type 0 where
    private : f.perm ≡ private_mode
    bounded : f.size ≤ max_state_bytes

  load_state-Loads :
      (f : SessionFile) (o : Option SessionState) (d : World) (s : SessionState) (d' : World)
      → d.target ≡ some f
      → IsReadable f
      → f.header ≡ some state_schema_version
      → f.as_state ≡ o
      → load_state env o d ≡ (ok (some s), d')
      → Loads d' s
  unfolding load_state
  load_state-Loads f none d s d' t q hd e h = absurd (ground arith)
  load_state-Loads f (some x) d s d' t q hd e h =
      let (u, g, valid, h1) = after-eq-ok _ (lift (validate_session_state x) d) h in
      let (g', kept, last, boot) = discard_if_stale-eq-some x.boot_id (pure (some x)) g h1 in
      let same : x ≡ s = ground arith in
      (
        (
          f,
          ground arith,
          record {
            private = q.private;
            bounded = q.bounded;
            header = hd;
            decoded = ground arith;
            valid = ground arith;
          },
        ),
        ground arith,
      )

  dispatch-Loads :
      (f : SessionFile) (o : Option Str) (d : World) (s : SessionState) (d' : World)
      → d.target ≡ some f
      → IsReadable f
      → f.header ≡ o
      → dispatch_schema env f o d ≡ (ok (some s), d')
      → Loads d' s
  unfolding dispatch_schema
  dispatch-Loads f none d s d' t q hd h = absurd (ground arith)
  dispatch-Loads f (some x) d s d' t q hd h =
      elim (Bool-cases (str_eq x continuation_schema_version)) [
        | inl e ↦ migrate-Loads f.as_continuation d s d' (ground arith)
        | inr e ↦ elim (Bool-cases (str_eq x state_schema_version)) [
          | inl e' ↦
              load_state-Loads f f.as_state d s d' t q
                (ground (arith, str_eq_iff x state_schema_version)) refl (ground arith)
          | inr e' ↦ absurd (ground arith)
        ]
      ]

  read_file-Loads :
      (o : Option SessionFile) (d : World) (s : SessionState) (d' : World)
      → d.target ≡ o
      → read_file env o d ≡ (ok (some s), d')
      → Loads d' s
  unfolding read_file call
  read_file-Loads none d s d' t h = absurd (ground arith)
  read_file-Loads (some f) d s d' t h =
      dispatch-Loads f f.header (record d { calls = suc (suc d.calls) }) s d' t
        (record { private = ground arith; bounded = ground arith }) refl (ground arith)

  -- A record that is loaded, or migrated while it is loaded, is valid, belongs to the current boot
  -- and is what the file holds afterwards.
  pub load_locked-Loads :
      (d : World) (s : SessionState) (d' : World)
      → load_locked env d ≡ (ok (some s), d')
      → Loads d' s
  unfolding load_locked call
  load_locked-Loads d s d' h =
      read_file-Loads d.target (record d { calls = suc d.calls }) s d' refl (ground arith)
