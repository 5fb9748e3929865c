-- ===== src/Session/Validation/Sound.antt =====
-- What a validated Network Session record holds.
use podlaz.Common.{
  ◌≡◌, ◌≢◌, true, [], Option-cases, inl, inr, some, ok, arith, str_eq_iff, trim_space,
}
use podlaz.Api.{normalize_handoff_policy, handoff_replace_podlaz}
use podlaz.Api.Laws.{IsComplete, validate_connect_request-IsComplete}
use podlaz.Session.Model.{
  Protection, Replacement, SessionState, state_schema_version, state_owner, same_envelope_identity,
}
use podlaz.Session.Protection.Composition.{IsProtection, validate_protection-IsProtection}
use podlaz.Session.Validation.{
  is_session_id, validate_session_state, validate_intent, validate_replacement,
}

-- A replacement in progress: the record asks for it, and both the current and the previous
-- protection stand for the same table.
pub record IsReplacing (s : SessionState) (r : Replacement) (p q : Protection) : Type 0 where
  pub asked : normalize_handoff_policy s.request.handoff ≡ handoff_replace_podlaz
  pub request : IsComplete r.previous_request
  pub previous : r.previous_protection ≡ some q
  pub valid : IsProtection q
  pub current : s.protection ≡ some p
  pub identity : same_envelope_identity p q ≡ true

pub record IsSessionState (s : SessionState) : Type 0 where
  pub schema : s.schema_version ≡ state_schema_version
  pub owned : s.owner ≡ state_owner
  pub boot : trim_space s.boot_id ≢ []
  pub session : is_session_id s.session_id ≡ true
  pub intent : validate_intent s.intent ≡ ok tt
  pub request : IsComplete s.request
  pub protection : (p : Protection) → s.protection ≡ some p → IsProtection p
  pub replacement :
      (r : Replacement)
      → s.replacement ≡ some r
      → (p : Protection) × (q : Protection) × IsReplacing s r p q

validate_replacement_sound :
    (s : SessionState) (r : Replacement)
    → validate_replacement s (some r) ≡ ok tt
    → (p : Protection) × (q : Protection) × IsReplacing s r p q
unfolding validate_replacement
validate_replacement_sound s r h = elim (Option-cases r.previous_protection) [
  | inl e ↦ absurd (ground arith)
  | inr (q, e) ↦ elim (Option-cases s.protection) [
    | inl f ↦ absurd (ground arith)
    | inr (p, f) ↦ (
      p,
      q,
      record {
        asked =
            ground (
              arith,
              str_eq_iff (normalize_handoff_policy s.request.handoff) handoff_replace_podlaz,
            );
        request = ground (arith, (validate_connect_request-IsComplete r.previous_request).0);
        previous = e;
        valid = ground (arith, validate_protection-IsProtection q);
        current = f;
        identity = ground arith;
      },
    )
  ]
]

-- Every record that passes validation is well formed: its identity, its request and its
-- protection are valid, and a replacement keeps a valid previous request and a valid previous
-- protection of the same table.
pub validate_session_state-IsSessionState :
    (s : SessionState) → validate_session_state s ≡ ok tt → IsSessionState s
unfolding validate_session_state
validate_session_state-IsSessionState s h = record {
  schema = ground (arith, str_eq_iff s.schema_version state_schema_version);
  owned = ground (arith, str_eq_iff s.owner state_owner);
  boot = ground arith;
  session = ground arith;
  intent = ground arith;
  request = ground (arith, (validate_connect_request-IsComplete s.request).0);
  protection = λ p e. ground (arith, validate_protection-IsProtection p);
  replacement = λ r e. validate_replacement_sound s r (ground arith);
}
