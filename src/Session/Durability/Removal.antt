-- ===== src/Session/Durability/Removal.antt =====
-- The record goes away only when nothing is left to protect.
use podlaz.Common.{
  suc, ◌≡◌, ◌≢◌, inl, inr, Option-cases, Option, none, some, ok, err, Check, arith, refl, Str,
}
use podlaz.Session.Model.{
  SessionState, Continuation, Protection, Error, continuation_schema_version, state_schema_version,
}
use podlaz.Session.Model
use podlaz.Session.Validation.{validate_session_state, validate_continuation}
use podlaz.Session.Io.{
  Env, World, M, pure, lift, SessionFile, save, call, remove_file, discard_if_stale,
  adopt_continuation, migrated, new_session_id, migrate_valid, migrate_continuation, load_state,
  dispatch_schema, read_file, load_locked,
}
use podlaz.Session.Store.{remove, remove_unprotected}
use podlaz.Session.Durability.{after-eq-ok, after-pure-eq-ok}
use podlaz.Session.Durability.Load.{not-reject-eq-ok}

-- No record, or one with no protection.
abbrev pub IsBare : Option SessionState → Type 0
IsBare none = Unit
IsBare (some s) = s.protection ≡ none

module _ (env : Env) where
  remove_file-eq-ok : (d : World) (d' : World) → remove_file env d ≡ (ok tt, d') → d'.target ≡ none
  unfolding remove_file
  remove_file-eq-ok d d' h = ground arith

  -- `next` returns a record wherever it succeeds.
  abbrev Returns : M (Option SessionState) → Type 0
  Returns next = (d d' : World) → next d ≢ (ok none, d')

  discard-eq-none :
      (recorded : Str) (next : M (Option SessionState)) (d d' : World)
      → Returns next
      → discard_if_stale env recorded next d ≡ (ok none, d')
      → d'.target ≡ none
  unfolding discard_if_stale call
  discard-eq-none recorded next d d' always h = ground (
    arith,
    always (record d { calls = suc d.calls }) d',
    remove_file-eq-ok (record d { calls = suc d.calls }) d',
  )

  adopt-Returns : (c : Continuation) → Returns (adopt_continuation env c)
  unfolding adopt_continuation
  adopt-Returns c d d' h =
      let (id, e, _, h1) = after-eq-ok _ (new_session_id env d) h in
      let (u, saved, same) =
        after-pure-eq-ok (some (migrated c id)) (save env (migrated c id) e) h1 in
      ground arith

  migrate_valid-eq-none :
      (c : Continuation) (r : Check Error) (d d' : World)
      → migrate_valid env c r d ≡ (ok none, d')
      → d'.target ≡ none
  unfolding migrate_valid
  migrate_valid-eq-none c (ok _) d d' h =
      discard-eq-none c.boot_id (adopt_continuation env c) d d' (adopt-Returns c) h
  migrate_valid-eq-none c (err x) d d' h = absurd (not-reject-eq-ok env x (remove_file env d) h)

  migrate-eq-none :
      (o : Option Continuation) (d d' : World)
      → migrate_continuation env o d ≡ (ok none, d')
      → d'.target ≡ none
  unfolding migrate_continuation
  migrate-eq-none none d d' h = absurd (ground arith)
  migrate-eq-none (some c) d d' h = migrate_valid-eq-none c (validate_continuation c) d d' h

  load_state-eq-none :
      (o : Option SessionState) (d d' : World)
      → load_state env o d ≡ (ok none, d')
      → d'.target ≡ none
  unfolding load_state
  load_state-eq-none none d d' h = absurd (ground arith)
  load_state-eq-none (some s) d d' h =
      let (u, e, _, h1) = after-eq-ok _ (lift (validate_session_state s) d) h in
      discard-eq-none s.boot_id (pure (some s)) e d' (λ g g' k. ground arith) h1

  read_file-eq-none :
      (o : Option SessionFile) (d d' : World)
      → d.target ≡ o
      → read_file env o d ≡ (ok none, d')
      → d'.target ≡ none
  unfolding read_file dispatch_schema call
  read_file-eq-none none d d' t h = ground arith
  read_file-eq-none (some f) d d' t h =
      let e : World = record d { calls = suc (suc d.calls) } in
      ground (arith, migrate-eq-none f.as_continuation e d', load_state-eq-none f.as_state e d')

  -- Where loading finds no record, no file is left.
  pub load_locked-eq-none : (d d' : World) → load_locked env d ≡ (ok none, d') → d'.target ≡ none
  unfolding load_locked call
  load_locked-eq-none d d' h =
      read_file-eq-none d.target (record d { calls = suc d.calls }) d' refl (ground arith)

  remove_unprotected-eq-ok :
      (o : Option SessionState) (d d' : World)
      → (o ≡ none → d.target ≡ none)
      → remove_unprotected env o d ≡ (ok tt, d')
      → (d'.target ≡ none) × IsBare o
  unfolding remove_unprotected
  remove_unprotected-eq-ok none d d' n h = (ground (arith, n refl), tt)
  remove_unprotected-eq-ok (some s) d d' n h = elim (Option-cases s.protection) [
    | inl e ↦ (remove_file-eq-ok d d' (ground arith), e)
    | inr (p, e) ↦ absurd (ground arith)
  ]

  -- A removal that succeeds leaves no file, and the record that was loaded, if there was one, had
  -- no protection: the authority to clean a Privacy Envelope up is never removed.
  pub remove-eq-ok :
      (d d' : World)
      → remove env d ≡ (ok tt, d')
      → (o : Option SessionState) × (e : World) × (load_locked env d ≡ (ok o, e))
        × (d'.target ≡ none)
        × IsBare o
  unfolding remove
  remove-eq-ok d d' h =
      let (o, e, loaded, h1) = after-eq-ok (remove_unprotected env) (load_locked env d) h in
      let (gone, bare) =
        remove_unprotected-eq-ok o e d' (λ n. load_locked-eq-none d e (ground arith)) h1 in
      (o, e, loaded, gone, bare)

  -- Removing a protected record is refused, and the file stays as loading left it.
  pub remove_protected :
      (d e : World) (s : SessionState) (p : Protection)
      → load_locked env d ≡ (ok (some s), e)
      → s.protection ≡ some p
      → remove env d ≡ (err Model.protection_held, e)
  unfolding remove remove_unprotected
  remove_protected d e s p h q = rw h (ground arith)
