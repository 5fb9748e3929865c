-- ===== src/Session/Plan.antt =====
-- How each operation of the Network Session store changes the record, with no file in sight: the
-- bodies of `BeginOrResume` and of the functions given to `Update`
-- (internal/daemon/network_session_state.go, network_session_continuation.go).
pub mod Resume
pub mod Replacing
pub mod Intents
use podlaz.Common.{
  suc, Bool, true, false, not, ◌&&◌, ◌||◌, [], Option, none, some, Result, ok, err, Str, text,
  str_eq, is_empty, ◌==◌, if◌then◌else◌, same,
}
use podlaz.Api.{
  ConnectRequest, ConnectRequest-discrete, normalize_handoff_policy, handoff_replace_podlaz,
  handoff_block,
}
use podlaz.Session.Model.{
  Intent, Intent-discrete, resume, disconnect, terminal, other_intent, Protection, ProtectionState,
  armed, unarmed, arming, removing, other_protection, Replacement, SessionState, Error,
  state_schema_version, state_owner, max_epoch, equivalent_ignoring_handoff,
}
use podlaz.Session.Model

unfoldable pub is_resume : Intent → Bool
is_resume resume = true
is_resume disconnect = false
is_resume terminal = false
is_resume (other_intent _) = false

-- What `BeginOrResume` does with a record that exists.
pub data Plan : Type 0 where
  return_as_is store_first : SessionState → Plan

unfoldable pub begin_replacement : SessionState → ConnectRequest → Protection → Result Error Plan
begin_replacement s request p =
    if str_eq s.request.mode (text "tun") && str_eq request.mode (text "tun")
    then ok (
        store_first (record s {
          replacement =
              some (record { previous_request = s.request; previous_protection = some p });
          request = request;
        }))
    else err Model.replace_needs_tun

unfoldable pub resume_protected :
    SessionState → ConnectRequest → Option Protection → Result Error Plan
unfolding begin_replacement
resume_protected s request none = ok (store_first (record s { request = request }))
resume_protected s request (some p) =
    if str_eq (normalize_handoff_policy request.handoff) handoff_replace_podlaz
    then begin_replacement s request p
    else if not (equivalent_ignoring_handoff s.request request)
    then err Model.change_without_handoff
    else ok (store_first (record s { request = request }))

unfoldable pub resume_replacing :
    SessionState → ConnectRequest → Option Replacement → Result Error Plan
unfolding resume_protected
resume_replacing s request none = resume_protected s request s.protection
resume_replacing s request (some r) =
    if same ConnectRequest-discrete s.request request
    then ok (return_as_is s)
    else err Model.transition_in_progress

unfoldable pub plan_resume : SessionState → ConnectRequest → Result Error Plan
unfolding resume_replacing is_resume
plan_resume s request =
    if not (is_resume s.intent)
    then err Model.transition_in_progress
    else resume_replacing s request s.replacement

-- The record of a new session.
abbrev pub fresh_state : ConnectRequest → Str → Str → SessionState
fresh_state request boot id = record {
  schema_version = state_schema_version;
  owner = state_owner;
  boot_id = boot;
  session_id = id;
  recovery_epoch = 0;
  intent = resume;
  request = request;
  protection = none;
  replacement = none;
}

-- The body of `BeginRecoveryAttempt`. The record that the source returns beside an error is
-- dropped: its caller reads it only on success.
unfoldable pub advance_epoch : SessionState → Result Error SessionState
advance_epoch s =
    if s.recovery_epoch == max_epoch
    then err Model.epoch_exhausted
    else ok (record s { recovery_epoch = suc s.recovery_epoch })

unfoldable pub is_armed : ProtectionState → Bool
is_armed armed = true
is_armed unarmed = false
is_armed arming = false
is_armed removing = false
is_armed (other_protection _) = false

-- Armed, with no previous composition left.
unfoldable pub is_final : Option Protection → Bool
is_final none = false
is_final (some p) =
    is_armed p.state && is_empty p.previous_bootstrap_ipv4 && is_empty p.previous_egress_marks

unfoldable pub commit_present : SessionState → Option Replacement → Result Error SessionState
commit_present s none = ok s
commit_present s (some r) =
    if is_final s.protection
    then ok
        (record s { replacement = none; request = record s.request { handoff = handoff_block } })
    else err Model.uncommitted_protection

-- The body of `CommitReplacement`.
unfoldable pub commit_change : SessionState → Result Error SessionState
unfolding commit_present is_final is_armed
commit_change s = commit_present s s.replacement

unfoldable pub restore_present : SessionState → Option Replacement → SessionState
restore_present s none = s
restore_present s (some r) = record s {
  request = r.previous_request;
  protection = r.previous_protection;
  replacement = none;
}

-- The body of `RestoreReplacement`.
unfoldable pub restore_change : SessionState → Result Error SessionState
unfolding restore_present
restore_change s = ok (restore_present s s.replacement)

unfoldable pub is_terminal : Intent → Bool
is_terminal terminal = true
is_terminal resume = false
is_terminal disconnect = false
is_terminal (other_intent _) = false

unfoldable pub is_disconnect : Intent → Bool
is_disconnect disconnect = true
is_disconnect resume = false
is_disconnect terminal = false
is_disconnect (other_intent _) = false

-- The body of `disarm`.
unfoldable pub disarm_change : Intent → SessionState → Result Error SessionState
unfolding is_terminal is_disconnect is_resume
disarm_change intent s =
    if same Intent-discrete s.intent intent || is_terminal s.intent
    then ok s
    else if is_disconnect s.intent && is_terminal intent
    then ok (record s { intent = terminal })
    else if not (is_resume s.intent)
    then err Model.intent_change_refused
    else ok (record s { intent = intent })

-- The body of the continuation's `Remove`.
unfoldable pub disarm_resume : SessionState → Result Error SessionState
unfolding is_resume
disarm_resume s = ok (if is_resume s.intent then record s { intent = disconnect } else s)
