-- ===== src/Session/Plan/Resume.antt =====
-- What resuming a session may change of its record.
use podlaz.Common.{◌≡◌, ◌≢◌, ◌⊎◌, true, none, some, ok, err, arith, text, str_eq_iff}
use podlaz.Api.{ConnectRequest, normalize_handoff_policy, handoff_replace_podlaz}
use podlaz.Session.Model.{
  resume, Protection, Replacement, SessionState, equivalent_ignoring_handoff,
}
use podlaz.Session.Model
use podlaz.Session.Plan.{Plan, return_as_is, store_first, plan_resume}

-- The record that a plan ends with.
abbrev pub planned : Plan → SessionState
planned (return_as_is s) = s
planned (store_first s) = s

-- Nothing but the request and the replacement differs.
pub record SameSession (s s' : SessionState) : Type 0 where
  pub schema : s'.schema_version ≡ s.schema_version
  pub owner : s'.owner ≡ s.owner
  pub boot : s'.boot_id ≡ s.boot_id
  pub session : s'.session_id ≡ s.session_id
  pub epoch : s'.recovery_epoch ≡ s.recovery_epoch
  pub intent : s'.intent ≡ s.intent
  pub protection : s'.protection ≡ s.protection

-- A plan exists only for a session that is to be resumed; it keeps the session, its epoch and its
-- protection, and ends with the request that was made.
pub plan_resume-SameSession :
    (s : SessionState) (r : ConnectRequest) {p : Plan}
    → plan_resume s r ≡ ok p
    → SameSession s (planned p) × ((planned p).request ≡ r) × (s.intent ≡ resume)
unfolding plan_resume
plan_resume-SameSession s r h = ground arith

-- How a protected session may answer a request: while a replacement is in progress, its own request
-- is repeated and nothing changes; with none in progress, a replacement begins, and keeps the request
-- and the protection to return to, or only the handoff policy differs and only the request changes.
abbrev pub Repeats : SessionState → ConnectRequest → SessionState → Type 0
Repeats s r s' = (x : Replacement) × (s.replacement ≡ some x) × (r ≡ s.request) × (s' ≡ s)

abbrev pub Replaces : SessionState → ConnectRequest → Protection → SessionState → Type 0
Replaces s r p s' =
    (s.replacement ≡ none)
    × (s'.request ≡ r)
    × (normalize_handoff_policy r.handoff ≡ handoff_replace_podlaz)
    × (s.request.mode ≡ text "tun")
    × (r.mode ≡ text "tun")
    × (s'.replacement
        ≡ some (record { previous_request = s.request; previous_protection = some p }))

abbrev pub Refreshes : SessionState → ConnectRequest → SessionState → Type 0
Refreshes s r s' =
    (s.replacement ≡ none)
    × (equivalent_ignoring_handoff s.request r ≡ true)
    × (s' ≡ record s { request = r })

-- A protected session accepts a request only in one of these three ways: no other request can
-- take the place of a protected one.
pub plan_resume_protected :
    (s : SessionState) (r : ConnectRequest) (p : Protection) {plan : Plan}
    → s.protection ≡ some p
    → plan_resume s r ≡ ok plan
    → Repeats s r (planned plan) ⊎ Replaces s r p (planned plan) ⊎ Refreshes s r (planned plan)
unfolding plan_resume
plan_resume_protected s r p e h = ground (
  arith,
  str_eq_iff (normalize_handoff_policy r.handoff) handoff_replace_podlaz,
  str_eq_iff s.request.mode (text "tun"),
  str_eq_iff r.mode (text "tun"),
)

-- While a replacement is in progress, every other request is refused.
pub plan_resume_replacing :
    (s : SessionState) (r : ConnectRequest) (x : Replacement)
    → s.replacement ≡ some x
    → s.request ≢ r
    → plan_resume s r ≡ err Model.transition_in_progress
unfolding plan_resume
plan_resume_replacing s r x e ne = ground arith
