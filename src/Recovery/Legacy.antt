-- ===== src/Recovery/Legacy.antt =====
-- The executor of a transaction with the fixed resources (daemon_executor.go,
-- `DaemonCleanupExecutor`).
use podlaz.Common.{Bool, not, Option, List, [], ◌∷◌, ◌++◌, Str}
use podlaz.Transaction.Model.{Transaction, RollbackMetadata}
use podlaz.Recovery.Text.{CleanPath, path_text}
use podlaz.Recovery.Model.{Candidate, CleanupResult, Host, failed, link_identity_blocked}
use podlaz.Recovery.Owners.{is_link_dependent_route}
use podlaz.Recovery.Metadata.{recovery_rollback_metadata, applying_desired_ownership_gaps}
use podlaz.Recovery.Phases.{
  each, each_if, rollback_child_process_results, rollback_nftables_results, dns_result,
  policy_rule_result, route_result, address_result, tun_result,
}
use podlaz.Recovery.Links.{
  LinkDecision, matched, absent_child_absent, blocked, exact_link_identity,
  rollback_link_identity_gate, tracked_child_absence_proven,
}
use podlaz.Recovery.Cleanup.{
  Phase, in_turn, fail_link_scoped_rollback_results, missing_link_scoped_rollback_results,
  missing_link_route_results, gate_results, finish, preserve,
}

module _ (host : Host) (runtime_dir path : CleanPath) (candidate : Candidate)
    (tx : Transaction) where
  -- The phases that need no proof of the link.
  unfoldable pub independent_phases : RollbackMetadata → List Phase
  independent_phases m =
      rollback_nftables_results host tx [] m.nftables
      ∷ each (policy_rule_result host) m.policy_rules
      ∷ each_if (λ r. not (is_link_dependent_route r)) (route_result host) m.routes
      ∷ []

  unfoldable pub matched_phases : Bool → RollbackMetadata → List Phase
  matched_phases children_absent m =
      rollback_nftables_results host tx [] m.nftables
      ∷ each (dns_result host) m.dns
      ∷ each (policy_rule_result host) m.policy_rules
      ∷ each (route_result host) m.routes
      ∷ each (address_result host children_absent) m.tun_addresses
      ∷ each (tun_result host) m.tun
      ∷ []

  -- The switch on the decision about the link.
  unfoldable pub by_decision :
      RollbackMetadata
      → List Str
      → List CleanupResult
      → Bool
      → Option CleanupResult
      → LinkDecision
      → Phase
  by_decision m gaps processes children_absent gate blocked t =
      let (rs, t') = in_turn (independent_phases m) t in
      let (ss, t'') =
        preserve host runtime_dir path candidate tx m
          (rs ++ (gate_results gate ++ fail_link_scoped_rollback_results m)) processes t' in
      (ss ++ (failed candidate link_identity_blocked ∷ []), t'')
  by_decision m gaps processes children_absent gate absent_child_absent t =
      let (rs, t') = in_turn (independent_phases m) t in
      finish host runtime_dir path candidate tx m (path_text path) gaps processes
        (rs
          ++ (missing_link_route_results is_link_dependent_route m.routes
              ++ (gate_results gate ++ (missing_link_scoped_rollback_results m ++ processes))))
        t'
  by_decision m gaps processes children_absent gate matched t =
      let (rs, t') = in_turn (matched_phases children_absent m) t in
      finish host runtime_dir path candidate tx m (path_text path) gaps processes (rs ++ processes)
        t'

  -- `cleanupTransactionState`, from the projection of the metadata on.
  unfoldable pub cleanup_loaded : Phase
  unfolding by_decision independent_phases matched_phases
  cleanup_loaded t =
      let m = recovery_rollback_metadata tx in
      let gaps = applying_desired_ownership_gaps tx in
      let (processes, t1) = rollback_child_process_results host m.child_processes t in
      let children_absent = tracked_child_absence_proven m.child_processes processes in
      let ((gate, decision), t2) =
        rollback_link_identity_gate host m (exact_link_identity m tx.applied_steps) children_absent
          t1 in
      by_decision m gaps processes children_absent gate decision t2
