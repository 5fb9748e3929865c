-- ===== src/Session/Plan/Replacing.antt =====
-- A replacement is committed or taken back.
use podlaz.Common.{◌≡◌, [], Option, none, some, ok, inl, inr, Option-cases, arith, str_eq_iff}
use podlaz.Api.{ConnectRequest, normalize_handoff_policy, handoff_replace_podlaz, handoff_block}
use podlaz.Session.Model.{Protection, Replacement, SessionState, armed}
use podlaz.Session.Plan.{store_first, plan_resume, commit_change, restore_change}

-- Taking a replacement back returns to exactly the record that it began with, whatever the
-- protection became in between.
pub restore_change-plan_resume :
    (s : SessionState) (r : ConnectRequest) (p : Protection) (q : Option Protection)
    {s' : SessionState}
    → s.protection ≡ some p
    → s.replacement ≡ none
    → normalize_handoff_policy r.handoff ≡ handoff_replace_podlaz
    → plan_resume s r ≡ ok (store_first s')
    → restore_change (record s' { protection = q }) ≡ ok s
unfolding plan_resume restore_change
restore_change-plan_resume s r p q e n a h =
    ground (arith, str_eq_iff (normalize_handoff_policy r.handoff) handoff_replace_podlaz)

-- What a commit requires of the record and makes of it.
pub record IsCommitted (s s' : SessionState) (p : Protection) : Type 0 where
  pub protected : s.protection ≡ some p
  pub armed_now : p.state ≡ armed
  pub no_endpoints : p.previous_bootstrap_ipv4 ≡ []
  pub no_marks : p.previous_egress_marks ≡ []
  pub ended :
      s' ≡ record s { replacement = none; request = record s.request { handoff = handoff_block } }

-- A replacement is committed only under an armed protection with no previous composition left;
-- then the replacement is forgotten and the policy falls back to block.
pub commit_change-IsCommitted :
    (s : SessionState) (r : Replacement) {s' : SessionState}
    → s.replacement ≡ some r
    → commit_change s ≡ ok s'
    → (p : Protection) × IsCommitted s s' p
unfolding commit_change
commit_change-IsCommitted s r e h = elim (Option-cases s.protection) [
  | inl f ↦ absurd (ground arith)
  | inr (p, f) ↦ (p, ground arith)
]
