-- ===== src/Session/Store.antt =====
-- The operations of the Network Session store and of the continuation store on it
-- (internal/daemon/network_session_state.go, network_session_continuation.go). The mutex makes
-- each of them one step on the file.
use podlaz.Common.{Option, none, some, Result, ok, is_some, if◌then◌else◌}
use podlaz.Api.{ConnectRequest, validate_connect_request}
use podlaz.Session.Model.{Intent, Protection, SessionState, Error}
use podlaz.Session.Model
use podlaz.Session.Validation.{validate_intent, validate_optional, wrap}
use podlaz.Session.Plan.{
  Plan, return_as_is, store_first, is_resume, plan_resume, fresh_state, advance_epoch,
  commit_change, restore_change, disarm_change, disarm_resume,
}
use podlaz.Session.Io.{
  Env, World, M, ◌>>=◌, ◌>>◌, pure, throw, lift, guard, load_locked, save, remove_file,
  current_boot_id, new_session_id,
}

-- `if !exists { return errors.New(…) }`, the record itself dropped.
unfoldable pub require_session : Option SessionState → M (Unit {0})
require_session none = throw Model.no_session
require_session (some _) = pure tt

-- The request that may be replayed.
unfoldable pub current_request : Option SessionState → Option ConnectRequest
current_request none = none
current_request (some s) = if is_resume s.intent then some s.request else none

module _ (env : Env) where
  unfoldable pub save_and_return : SessionState → M SessionState
  save_and_return s = save env s >> pure s

  unfoldable pub perform : Plan → M SessionState
  unfolding save_and_return
  perform (return_as_is s) = pure s
  perform (store_first s) = save_and_return s

  unfoldable pub begin : ConnectRequest → Option SessionState → M SessionState
  unfolding perform save_and_return
  begin request (some s) = do plan ← lift (plan_resume s request); perform plan
  begin request none = do
    boot ← current_boot_id env
    id ← new_session_id env
    save_and_return (fresh_state request boot id)

  unfoldable pub begin_or_resume : ConnectRequest → M SessionState
  unfolding begin
  begin_or_resume request = do
    lift (wrap Model.bad_request (validate_connect_request request))
    current ← load_locked env
    begin request current

  abbrev pub load : M (Option SessionState)
  load = load_locked env

  unfoldable pub apply_update :
      (SessionState → Result Error SessionState) → Option SessionState → M (Option SessionState)
  apply_update f none = pure none
  apply_update f (some s) = do s' ← lift (f s); save env s'; pure (some s')

  unfoldable pub update : (SessionState → Result Error SessionState) → M (Option SessionState)
  unfolding apply_update
  update f = do current ← load_locked env; apply_update f current

  unfoldable pub begin_recovery_attempt : M (Option SessionState)
  begin_recovery_attempt = update advance_epoch

  unfoldable pub set_intent : Intent → M (Unit {0})
  set_intent intent = do
    lift (validate_intent intent)
    _ ← update (λ s. ok (record s { intent = intent }))
    pure tt

  unfoldable pub set_protection : Option Protection → M (Unit {0})
  unfolding require_session
  set_protection protection = do
    lift (validate_optional protection)
    current ← update (λ s. ok (record s { protection = protection }))
    require_session current

  unfoldable pub commit_replacement : M (Unit {0})
  unfolding require_session
  commit_replacement = do current ← update commit_change; require_session current

  unfoldable pub restore_replacement : M (Unit {0})
  unfolding require_session
  restore_replacement = do current ← update restore_change; require_session current

  unfoldable pub remove_unprotected : Option SessionState → M (Unit {0})
  remove_unprotected none = pure tt
  remove_unprotected (some s) = do
    guard (is_some s.protection) Model.protection_held
    remove_file env

  unfoldable pub remove : M (Unit {0})
  unfolding remove_unprotected
  remove = do current ← load_locked env; remove_unprotected current

  -- `LoadCurrent`.
  unfoldable pub load_current : M (Option ConnectRequest)
  unfolding current_request
  load_current = do current ← load_locked env; pure (current_request current)

  unfoldable pub remove_disarmed : Option SessionState → M (Unit {0})
  unfolding remove
  remove_disarmed none = pure tt
  remove_disarmed (some _) = remove

  -- The continuation's `Remove`.
  unfoldable pub remove_continuation : M (Unit {0})
  unfolding remove_disarmed
  remove_continuation = do current ← update disarm_resume; remove_disarmed current

  unfoldable pub disarm : Intent → M (Unit {0})
  disarm intent = do lift (validate_intent intent); _ ← update (disarm_change intent); pure tt

-- The calls of the two stores, for their histories.
pub data Op : Type 0 where
  begin_op : ConnectRequest → Op
  load_op attempt_op commit_op restore_op remove_op load_current_op remove_continuation_op : Op
  set_intent_op disarm_op : Intent → Op
  set_protection_op : Option Protection → Op

-- The file behind a call, whatever it returns.
unfoldable pub run_op : Env → Op → World → World
run_op env (begin_op r) d = (begin_or_resume env r d).1
run_op env load_op d = (load env d).1
run_op env attempt_op d = (begin_recovery_attempt env d).1
run_op env commit_op d = (commit_replacement env d).1
run_op env restore_op d = (restore_replacement env d).1
run_op env remove_op d = (remove env d).1
run_op env load_current_op d = (load_current env d).1
run_op env remove_continuation_op d = (remove_continuation env d).1
run_op env (set_intent_op i) d = (set_intent env i d).1
run_op env (disarm_op i) d = (disarm env i d).1
run_op env (set_protection_op p) d = (set_protection env p d).1

-- Any calls, each in any environment: across restarts and reboots of the machine.
pub data Reach (d : World) : World → Type 0 where
  here : Reach d d
  next : {e : World} (env : Env) (op : Op) → Reach d e → Reach d (run_op env op e)
