-- ===== src/Session/Validation.antt =====
-- The validation of a Network Session record and of its legacy form
-- (internal/daemon/network_session_state.go, `validateNetworkSessionState`, and
-- network_session_continuation.go, `validateNetworkSessionContinuation`).
pub mod Sound
use podlaz.Common.{
  Bool, true, false, not, ◌&&◌, Option, none, some, ok, err, Result, Check, ◌>>◌, fail_if, Str,
  text, str_eq, trim_space, is_lower_hex, length, is_empty, all, ◌==◌, if◌then◌else◌,
}
use podlaz.Api.{
  ConnectRequest, RequestError, validate_connect_request, normalize_handoff_policy,
  handoff_replace_podlaz,
}
use podlaz.Session.Model.{
  Intent, resume, disconnect, terminal, other_intent, Protection, ProtectionError, Replacement,
  SessionState, Continuation, Error, state_schema_version, state_owner, continuation_schema_version,
  same_envelope_identity,
}
use podlaz.Session.Model
use podlaz.Session.Protection.{validate_protection}

-- `fmt.Errorf("…: %w", err)`.
abbrev pub wrap : {E F : Type 0} → (E → F) → Check E → Check F
wrap f (ok u) = ok u
wrap f (err e) = err (f e)

-- `networkSessionIDPattern`.
unfoldable pub is_session_id : Str → Bool
unfolding is_lower_hex
is_session_id s = length s == 32 && all is_lower_hex s

unfoldable pub validate_intent : Intent → Check Error
validate_intent (other_intent _) = err Model.unsupported_intent
validate_intent resume = ok tt
validate_intent disconnect = ok tt
validate_intent terminal = ok tt

unfoldable pub validate_optional : Option Protection → Check Error
validate_optional none = ok tt
validate_optional (some p) = wrap Model.bad_protection (validate_protection p)

-- `state.Protection == nil || !samePrivacyEnvelopeIdentity(…)`, negated.
unfoldable pub keeps_identity : Option Protection → Protection → Bool
keeps_identity none previous = false
keeps_identity (some p) previous = same_envelope_identity p previous

validate_previous : SessionState → Option Protection → Check Error
validate_previous s none = err Model.replacement_without_previous
validate_previous s (some previous) = do
  wrap Model.bad_previous_protection (validate_protection previous)
  fail_if (not (keeps_identity s.protection previous)) Model.protection_identity_changed

unfoldable pub validate_replacement : SessionState → Option Replacement → Check Error
unfolding validate_previous keeps_identity
validate_replacement s none = ok tt
validate_replacement s (some r) = do
  fail_if (not (str_eq (normalize_handoff_policy s.request.handoff) handoff_replace_podlaz))
      Model.replacement_needs_replace_handoff
  wrap Model.bad_previous_request (validate_connect_request r.previous_request)
  validate_previous s r.previous_protection

unfoldable pub validate_session_state : SessionState → Check Error
unfolding validate_intent validate_optional validate_replacement
validate_session_state s = do
  fail_if (not (str_eq s.schema_version state_schema_version)) Model.unsupported_schema
  fail_if (not (str_eq s.owner state_owner)) Model.unsupported_owner
  fail_if (is_empty (trim_space s.boot_id)) Model.empty_boot_id
  fail_if (not (is_session_id s.session_id)) Model.bad_session_id
  validate_intent s.intent
  wrap Model.bad_request (validate_connect_request s.request)
  validate_optional s.protection
  validate_replacement s s.replacement

unfoldable pub validate_continuation : Continuation → Check Error
validate_continuation c = do
  fail_if (not (str_eq c.schema_version continuation_schema_version)) Model.unsupported_schema
  fail_if (not (str_eq c.owner state_owner)) Model.unsupported_owner
  fail_if (is_empty (trim_space c.boot_id)) Model.empty_boot_id
  wrap Model.bad_request (validate_connect_request c.request)
