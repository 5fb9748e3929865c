-- ===== src/Session/Integrity/Load.antt =====
-- Loading the record, migrating and discarding it, keeps the file sound.
use podlaz.Common.{
  inl, inr, refl, arith, Bool, not, Option, none, some, ok, err, Check, Str, trim_space, is_empty,
  ltb, ◌==◌,
}
use podlaz.Session.Model.{
  SessionState, Continuation, Error, state_schema_version, continuation_schema_version,
  private_mode, max_state_bytes,
}
use podlaz.Session.Model
use podlaz.Session.Validation.{validate_session_state, validate_continuation}
use podlaz.Session.Io.{
  Env, World, M, ◌>>◌, pure, lift, SessionFile, save, remove_file, current_boot_id, new_session_id,
  remove_present, unlink, discard_if_stale, adopt_continuation, migrated, reject_continuation,
  migrate_valid, migrate_continuation, load_state, dispatch_schema, read_file, load_locked,
}
use podlaz.Session.Integrity.{
  Evolves, IsCareful, bind-IsCareful, pure-IsCareful, guard-then, call-then, call-IsCareful,
  remove_file-IsCareful, save-IsCareful,
}

module _ (env : Env) where
  pub remove_present-IsCareful : (o : Option SessionFile) → IsCareful (remove_present env o)
  unfolding remove_present unlink
  remove_present-IsCareful none = pure-IsCareful (ok tt)
  remove_present-IsCareful (some f) =
      bind-IsCareful unlink _ (record { at = λ d. inr (inl refl) })
        λ _. call-IsCareful env Model.remove_sync_failed

  pub current_boot_id-IsCareful : IsCareful (current_boot_id env)
  unfolding current_boot_id
  current_boot_id-IsCareful = call-then env Model.boot_id_unreadable _ (
      guard-then (is_empty (trim_space env.boot_id)) Model.empty_boot_id _
        (pure-IsCareful (ok (trim_space env.boot_id))))

  pub new_session_id-IsCareful : IsCareful (new_session_id env)
  unfolding new_session_id
  new_session_id-IsCareful =
      call-then env Model.entropy_unreadable _ (record { at = λ d. inl refl })

  discard_if_stale-IsCareful :
      {A : Type 0} (recorded : Str) (next : M (Option A))
      → IsCareful next
      → IsCareful (discard_if_stale env recorded next)
  unfolding discard_if_stale
  discard_if_stale-IsCareful {A} recorded next h =
      bind-IsCareful (current_boot_id env) _ current_boot_id-IsCareful
        λ current. record { at = λ d. ground (arith, h.at d, dropped.at d) }
    where
      dropped : IsCareful (remove_file env >> pure {A = Option A} none)
      dropped =
          bind-IsCareful (remove_file env) _ (remove_file-IsCareful env)
            λ _. pure-IsCareful {A = Option A} (ok none)

  adopt_continuation-IsCareful : (c : Continuation) → IsCareful (adopt_continuation env c)
  unfolding adopt_continuation
  adopt_continuation-IsCareful c =
      bind-IsCareful (new_session_id env) _ new_session_id-IsCareful λ id.
        bind-IsCareful (save env (migrated c id)) _ (save-IsCareful env (migrated c id))
          λ _. pure-IsCareful (ok _)

  reject-Evolves :
      (d : World) (e : Error) (r : Check Error × World)
      → Evolves d r.1
      → Evolves d (reject_continuation e r).1
  unfolding reject_continuation
  reject-Evolves d e (ok _, d') h = h
  reject-Evolves d e (err _, d') h = h

  migrate_valid-IsCareful : (c : Continuation) (r : Check Error) → IsCareful (migrate_valid env c r)
  unfolding migrate_valid
  migrate_valid-IsCareful c (ok _) =
      discard_if_stale-IsCareful c.boot_id (adopt_continuation env c)
        (adopt_continuation-IsCareful c)
  migrate_valid-IsCareful c (err e) = record {
    at = λ d. reject-Evolves d e (remove_file env d) ((remove_file-IsCareful env).at d);
  }

  migrate_continuation-IsCareful :
      (o : Option Continuation) → IsCareful (migrate_continuation env o)
  unfolding migrate_continuation
  migrate_continuation-IsCareful none = pure-IsCareful (err _)
  migrate_continuation-IsCareful (some c) = migrate_valid-IsCareful c (validate_continuation c)

  load_state-IsCareful : (o : Option SessionState) → IsCareful (load_state env o)
  unfolding load_state
  load_state-IsCareful none = pure-IsCareful (err _)
  load_state-IsCareful (some s) =
      bind-IsCareful (lift (validate_session_state s)) _ (pure-IsCareful _)
        λ _. discard_if_stale-IsCareful s.boot_id (pure (some s)) (pure-IsCareful (ok (some s)))

  dispatch_schema-IsCareful :
      (f : SessionFile) (o : Option Str) → IsCareful (dispatch_schema env f o)
  unfolding dispatch_schema
  dispatch_schema-IsCareful f none = record { at = λ d. inl refl }
  dispatch_schema-IsCareful f (some schema) = record {
    at = λ d. ground (
      arith,
      (migrate_continuation-IsCareful f.as_continuation).at d,
      (load_state-IsCareful f.as_state).at d,
    );
  }

  read_file-IsCareful : (o : Option SessionFile) → IsCareful (read_file env o)
  unfolding read_file
  read_file-IsCareful none = pure-IsCareful (ok none)
  read_file-IsCareful (some f) =
      let large : Bool = ltb max_state_bytes f.size in
      let dispatched = dispatch_schema-IsCareful f f.header in
      let read =
        call-then env Model.read_failed _ (guard-then large Model.too_large _ dispatched) in
      call-then env Model.stat_failed _ (
        guard-then (not (f.perm == private_mode)) Model.bad_permissions _
          (guard-then large Model.too_large _ read))

  -- Loading changes the file only by discarding or migrating it.
  pub load_locked-IsCareful : IsCareful (load_locked env)
  unfolding load_locked
  load_locked-IsCareful =
      call-then env Model.open_failed _ (record { at = λ d. (read_file-IsCareful d.target).at d })
