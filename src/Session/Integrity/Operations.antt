-- ===== src/Session/Integrity/Operations.antt =====
-- Every operation of the store keeps the file sound.
use podlaz.Common.{◌≡◌, ◌⊎◌, inl, Option, none, some, Result, ok, err, is_some, arith}
use podlaz.Api.{ConnectRequest, validate_connect_request}
use podlaz.Session.Model.{Intent, Protection, SessionState, Error}
use podlaz.Session.Model
use podlaz.Session.Validation.{validate_intent, validate_optional, wrap}
use podlaz.Session.Plan.{
  Plan, return_as_is, store_first, plan_resume, fresh_state, advance_epoch, commit_change,
  restore_change, disarm_change, disarm_resume,
}
use podlaz.Session.Io.{
  Env, World, SessionFile, ◌>>=◌, lift, load_locked, save, remove_file, current_boot_id,
  new_session_id,
}
use podlaz.Session.Store.{
  save_and_return, perform, begin, begin_or_resume, apply_update, update, begin_recovery_attempt,
  set_intent, set_protection, commit_replacement, restore_replacement, Op, run_op, Reach, begin_op,
  load_op, attempt_op, commit_op, restore_op, remove_op, load_current_op, remove_continuation_op,
  set_intent_op, disarm_op, set_protection_op, here, next, require_session, remove_unprotected,
  remove, current_request, load_current, remove_disarmed, remove_continuation, disarm,
}
use podlaz.Session.Integrity.{
  IsSoundFile, Evolves, IsCareful, bind-IsCareful, pure-IsCareful, guard-then,
  remove_file-IsCareful, save-IsCareful,
}
use podlaz.Session.Integrity.Load.{
  load_locked-IsCareful, current_boot_id-IsCareful, new_session_id-IsCareful,
}

require_session-IsCareful : (o : Option SessionState) → IsCareful (require_session o)
unfolding require_session
require_session-IsCareful none = pure-IsCareful (err Model.no_session)
require_session-IsCareful (some s) = pure-IsCareful (ok tt)

module _ (env : Env) where
  save_and_return-IsCareful : (s : SessionState) → IsCareful (save_and_return env s)
  unfolding save_and_return
  save_and_return-IsCareful s =
      bind-IsCareful (save env s) _ (save-IsCareful env s) λ _. pure-IsCareful (ok s)

  perform-IsCareful : (p : Plan) → IsCareful (perform env p)
  unfolding perform
  perform-IsCareful (return_as_is s) = pure-IsCareful (ok s)
  perform-IsCareful (store_first s) = save_and_return-IsCareful s

  begin-IsCareful : (r : ConnectRequest) (o : Option SessionState) → IsCareful (begin env r o)
  unfolding begin
  begin-IsCareful r (some s) =
      bind-IsCareful (lift (plan_resume s r)) _ (pure-IsCareful (plan_resume s r)) perform-IsCareful
  begin-IsCareful r none =
      bind-IsCareful (current_boot_id env) _ (current_boot_id-IsCareful env) λ boot.
        bind-IsCareful (new_session_id env) _ (new_session_id-IsCareful env)
          λ id. save_and_return-IsCareful (fresh_state r boot id)

  begin_or_resume-IsCareful : (r : ConnectRequest) → IsCareful (begin_or_resume env r)
  unfolding begin_or_resume
  begin_or_resume-IsCareful r =
      bind-IsCareful (lift (wrap Model.bad_request (validate_connect_request r))) _
        (pure-IsCareful _)
        λ _. bind-IsCareful (load_locked env) _ (load_locked-IsCareful env) (begin-IsCareful r)

  apply_update-IsCareful :
      (f : SessionState → Result Error SessionState) (o : Option SessionState)
      → IsCareful (apply_update env f o)
  unfolding apply_update
  apply_update-IsCareful f none = pure-IsCareful (ok none)
  apply_update-IsCareful f (some s) = bind-IsCareful (lift (f s)) _ (pure-IsCareful (f s)) λ s'.
      bind-IsCareful (save env s') _ (save-IsCareful env s') λ _. pure-IsCareful (ok (some s'))

  update-IsCareful : (f : SessionState → Result Error SessionState) → IsCareful (update env f)
  unfolding update
  update-IsCareful f =
      bind-IsCareful (load_locked env) _ (load_locked-IsCareful env) (apply_update-IsCareful f)

  -- An update whose result is only asked for a session.
  required-IsCareful :
      (f : SessionState → Result Error SessionState) → IsCareful (update env f >>= require_session)
  required-IsCareful f =
      bind-IsCareful (update env f) require_session (update-IsCareful f) require_session-IsCareful

  remove_unprotected-IsCareful : (o : Option SessionState) → IsCareful (remove_unprotected env o)
  unfolding remove_unprotected
  remove_unprotected-IsCareful none = pure-IsCareful (ok tt)
  remove_unprotected-IsCareful (some s) =
      guard-then (is_some s.protection) Model.protection_held (remove_file env)
        (remove_file-IsCareful env)

  remove-IsCareful : IsCareful (remove env)
  unfolding remove
  remove-IsCareful =
      bind-IsCareful (load_locked env) _ (load_locked-IsCareful env) remove_unprotected-IsCareful

  remove_disarmed-IsCareful : (o : Option SessionState) → IsCareful (remove_disarmed env o)
  unfolding remove_disarmed
  remove_disarmed-IsCareful none = pure-IsCareful (ok tt)
  remove_disarmed-IsCareful (some s) = remove-IsCareful

  -- Whichever calls fail, every operation leaves the file as it was, removes it, or makes it a
  -- private file within the bound that holds one valid record.
  pub run_op-Evolves : (op : Op) (d : World) → Evolves d (run_op env op d)
  unfolding run_op begin_recovery_attempt set_intent set_protection commit_replacement
      restore_replacement load_current remove_continuation disarm
  run_op-Evolves (begin_op r) d = (begin_or_resume-IsCareful r).at d
  run_op-Evolves load_op d = (load_locked-IsCareful env).at d
  run_op-Evolves attempt_op d = (update-IsCareful advance_epoch).at d
  run_op-Evolves commit_op d = (required-IsCareful commit_change).at d
  run_op-Evolves restore_op d = (required-IsCareful restore_change).at d
  run_op-Evolves remove_op d = remove-IsCareful.at d
  run_op-Evolves load_current_op d =
      (bind-IsCareful (load_locked env) _ (load_locked-IsCareful env)
          λ s. pure-IsCareful (ok (current_request s))).at
        d
  run_op-Evolves remove_continuation_op d =
      (bind-IsCareful (update env disarm_resume) _ (update-IsCareful disarm_resume)
          remove_disarmed-IsCareful).at
        d
  run_op-Evolves (set_intent_op i) d =
      (bind-IsCareful (lift (validate_intent i)) _ (pure-IsCareful (validate_intent i)) λ _.
          bind-IsCareful (update env (λ s. ok (record s { intent = i }))) _ (update-IsCareful _)
            λ _. pure-IsCareful (ok tt)).at
        d
  run_op-Evolves (disarm_op i) d =
      (bind-IsCareful (lift (validate_intent i)) _ (pure-IsCareful (validate_intent i)) λ _.
          bind-IsCareful (update env (disarm_change i)) _ (update-IsCareful _)
            λ _. pure-IsCareful (ok tt)).at
        d
  run_op-Evolves (set_protection_op p) d =
      (bind-IsCareful (lift (validate_optional p)) _ (pure-IsCareful (validate_optional p))
          λ _. required-IsCareful (λ s. ok (record s { protection = p }))).at
        d

-- No file, or one sound file.
abbrev pub IsSound : World → Type 0
IsSound d =
    (d.target ≡ none)
    ⊎ ((f : SessionFile) × (s : SessionState) × (d.target ≡ some f) × IsSoundFile f s)

-- In every history of calls, in any environments and with any failures, that begins with no file,
-- the file is absent or is a private file within the bound that holds one valid record.
pub Reach-IsSound : {d e : World} → Reach d e → d.target ≡ none → IsSound e
Reach-IsSound here h = inl h
Reach-IsSound (next {e = e} env op r) h = ground (arith, run_op-Evolves env op e, Reach-IsSound r h)
