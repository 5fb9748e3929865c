-- ===== src/Recovery/SessionRuns.antt =====
-- The calls of a cleanup of allocated resources.
use podlaz.Common.{
  ◌≡◌, refl, Bool, true, false, not, ◌||◌, Option, some, List, [], Str, All, Bool-cases, inl, inr,
  is_empty,
}
use podlaz.Transaction.Model.{Transaction, RollbackMetadata}
use podlaz.Recovery.Text.{CleanPath}
use podlaz.Recovery.Model.{
  Call, CleanupResult, Candidate, Host, remove_transaction, cleanup_phase_blocked,
}
use podlaz.Recovery.Phases.{dns_result, address_result, tun_result}
use podlaz.Recovery.Links.{
  LinkDecision, matched, absent_child_absent, blocked, requires_link_identity,
  tracked_child_absence_proven,
}
use podlaz.Recovery.Cleanup.{Phase, until_blocked, gate_results, missing_link_route_results}
use podlaz.Recovery.Allocation.{
  Allocation, session_rollback_metadata, session_ownership_gaps, session_link_identity,
  is_session_link_route,
}
use podlaz.Recovery.Allocated.{
  any_entry, session_rule_result, session_route_result, session_independent_phases,
  session_matched_phases, stop_at_blocker, go_on, preserve_unproven, session_by_decision,
  cleanup_allocated,
}
use podlaz.Recovery.Keeping.{Keeps, each-Keeps, each_until-Keeps, until_blocked-Keeps}
use podlaz.Recovery.Authority.{
  IsLook, IsProvenLink, after_processes, Grants, LinkGrants, ConfigGrants,
}
use podlaz.Recovery.Steps.{
  dns-Keeps, address-Keeps, tun-Keeps, session_rule-Keeps, session_route-Keeps,
}
use podlaz.Recovery.Loops.{
  processes-Keeps, nftables-Keeps, gate-Keeps, finish-Keeps, preserve-Keeps, blocked-right,
}
use podlaz.Recovery.Runs.{gate-matched, LinkGrants-none, behind_link}

module _ (P : Call → Type 0) (host : Host) (dir path : CleanPath) (candidate : Candidate)
    (tx : Transaction) (a : Allocation) where
  pub independent-Keeps :
      (m : RollbackMetadata)
      → Grants P (some a) tx m
      → Keeps P (until_blocked (session_independent_phases host dir path candidate tx a m))
  unfolding session_independent_phases
  independent-Keeps m g = until_blocked-Keeps P _ (
    nftables-Keeps P host tx [] m.nftables g.grants_nftables,
    (
      each_until-Keeps P any_entry (session_rule_result host a) m.policy_rules
          (λ e i. session_rule-Keeps P host a e (λ args x. g.grants_rule e args i x)),
      (
        each_until-Keeps P (λ r. not (is_session_link_route a r)) (session_route_result host a)
            m.routes (λ e i. session_route-Keeps P host a e (λ args x. g.grants_route e args i x)),
        tt,
      ),
    ),
  )

  pub matched-Keeps :
      (m : RollbackMetadata) (absent : Bool)
      → Grants P (some a) tx m
      → LinkGrants P m
      → Keeps P (until_blocked (session_matched_phases host dir path candidate tx a absent m))
  unfolding session_matched_phases
  matched-Keeps m absent g l = until_blocked-Keeps P _ (
    nftables-Keeps P host tx [] m.nftables g.grants_nftables,
    (
      each-Keeps P (dns_result host) m.dns (λ e i. dns-Keeps P host e (l.grants_dns e i)),
      (
        each_until-Keeps P any_entry (session_rule_result host a) m.policy_rules
            (λ e i. session_rule-Keeps P host a e (λ args x. g.grants_rule e args i x)),
        (
          each_until-Keeps P any_entry (session_route_result host a) m.routes
              (λ e i. session_route-Keeps P host a e (λ args x. g.grants_route e args i x)),
          (
            each-Keeps P (address_result host absent) m.tun_addresses
                (λ e i. address-Keeps P host e absent (l.grants_address e absent i)),
            (
              each-Keeps P (tun_result host) m.tun (λ e i. tun-Keeps P host e (l.grants_tun e i)),
              tt,
            ),
          ),
        ),
      ),
    ),
  )

  stop-Keeps :
      (m : RollbackMetadata) (processes results : List CleanupResult)
      → ((c : Call) → IsLook c → P c)
      → Keeps P (stop_at_blocker host dir path candidate tx a m processes results)
  unfolding stop_at_blocker
  stop-Keeps m processes results g =
      preserve-Keeps P host dir path candidate tx m results processes g

  unproven-Keeps :
      (m : RollbackMetadata) (processes : List CleanupResult) (gate : Option CleanupResult)
      (rs : List CleanupResult)
      → ((c : Call) → IsLook c → P c)
      → Keeps P (preserve_unproven host dir path candidate tx a m processes gate rs)
  unfolding preserve_unproven
  unproven-Keeps m processes gate rs g = preserve-Keeps P host dir path candidate tx m _ processes g

  -- One of both ways on, behind the phases.
  either-Keeps : (b : Bool) (f g : Phase) → Keeps P f → Keeps P g → Keeps P (go_on b f g)
  unfolding go_on
  either-Keeps true f g k l = k
  either-Keeps false f g k l = l

  by_decision-Keeps :
      (m : RollbackMetadata) (gaps : List Str) (processes : List CleanupResult) (absent : Bool)
      (gate : Option CleanupResult) (d : LinkDecision)
      → Grants P (some a) tx m
      → (d ≡ matched → LinkGrants P m)
      → ((not (is_empty gaps) || cleanup_phase_blocked processes) ≡ false → ConfigGrants P dir m)
      → (cleanup_phase_blocked processes ≡ false → P (remove_transaction path))
      → Keeps P (session_by_decision host dir path candidate tx a m gaps processes absent gate d)
  unfolding session_by_decision
  by_decision-Keeps m gaps processes absent gate blocked g l k r t h =
      either-Keeps _ _ _ (stop-Keeps m processes _ g.grants_look)
        (unproven-Keeps m processes gate _ g.grants_look) _ (independent-Keeps m g t h)
  by_decision-Keeps m gaps processes absent gate absent_child_absent g l k r t h =
      let phases = session_independent_phases host dir path candidate tx a m in
      let missing = missing_link_route_results (is_session_link_route a) m.routes in
      either-Keeps _ _ _ (stop-Keeps m processes _ g.grants_look)
        (finish-Keeps P host dir path candidate tx m _ gaps processes _ g.grants_look k (λ b.
          r (behind_link (until_blocked phases t).0.1 missing m (gate_results gate) processes b)))
        _ (independent-Keeps m g t h)
  by_decision-Keeps m gaps processes absent gate matched g l k r t h =
      let phases = session_matched_phases host dir path candidate tx a absent m in
      either-Keeps _ _ _ (stop-Keeps m processes _ g.grants_look)
        (finish-Keeps P host dir path candidate tx m _ gaps processes _ g.grants_look k
          (λ b. r (blocked-right (until_blocked phases t).0.1 processes b)))
        _ (matched-Keeps m absent g (l refl) t h)

  pub cleanup_allocated-Keeps :
      (t : List Call)
      → (let m = session_rollback_metadata a tx in
          let after = after_processes host m t in
          Grants P (some a) tx m
          → (IsProvenLink host (session_link_identity m tx.applied_steps) after.1 → LinkGrants P m)
          → ((not (is_empty (session_ownership_gaps a tx)) || cleanup_phase_blocked after.0) ≡ false
              → ConfigGrants P dir m)
          → (cleanup_phase_blocked after.0 ≡ false → P (remove_transaction path))
          → All P t
          → All P (cleanup_allocated host dir path candidate tx a t).1)
  unfolding cleanup_allocated
  cleanup_allocated-Keeps t g l k r h =
      let m = session_rollback_metadata a tx in
      let after = after_processes host m t in
      let expected = session_link_identity m tx.applied_steps in
      let absent = tracked_child_absence_proven m.child_processes after.0 in
      by_decision-Keeps m _ after.0 absent _ _ g
        (λ e. elim (Bool-cases (requires_link_identity m)) [
          | inl q ↦ l (gate-matched host m expected absent after.1 q e)
          | inr q ↦ LinkGrants-none P m q
        ])
        k r _
        (gate-Keeps P host m expected absent g.grants_look after.1
          (processes-Keeps P host m.child_processes g.grants_look t h))
