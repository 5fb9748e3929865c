-- ===== src/Recovery/Allocated.antt =====
-- The executor of a transaction with allocated resources, and its choice between both
-- (network_session_cleanup_executor.go, `NetworkSessionCleanupExecutor`).
use podlaz.Common.{
  Bool, true, false, not, Option, none, some, List, [], ◌∷◌, ◌++◌, Str, text, if◌then◌else◌,
}
use podlaz.Transaction.Model.{Transaction, RollbackMetadata, RouteRollback, PolicyRuleRollback}
use podlaz.Recovery.Text.{CleanPath}
use podlaz.Recovery.Model.{
  Candidate, CleanupResult, Host, Run, failed, skipped, link_identity_blocked, stopped_failed,
  stopped_ambiguous, non_podlaz_metadata, allocation_mismatch, run_delete, has_failed_cleanup,
  cleanup_phase_blocked,
}
use podlaz.Recovery.Owners.{owner_route, owner_policy_rule, owned_rollback_metadata}
use podlaz.Recovery.Deletes.{route_candidate, rule_candidate}
use podlaz.Recovery.Phases.{
  each, rollback_child_process_results, rollback_nftables_results, dns_result, address_result,
  tun_result,
}
use podlaz.Recovery.Links.{
  LinkDecision, matched, absent_child_absent, blocked, rollback_link_identity_gate,
  tracked_child_absence_proven,
}
use podlaz.Recovery.Cleanup.{
  Phase, until_blocked, fail_link_scoped_rollback_results, missing_link_scoped_rollback_results,
  missing_link_route_results, gate_results, finish, preserve,
}
use podlaz.Recovery.Allocation.{
  Allocation, session_rollback_metadata, session_ownership_gaps, session_rule_delete_args,
  session_route_delete_args, is_session_link_route, session_link_identity,
}

-- A loop that stops behind the first result that is not a recovery; the entries that the test refuses
-- are left out.
unfoldable pub each_until :
    {E : Type 0} → (E → Bool) → (E → Run CleanupResult) → List E → Run (List CleanupResult)
each_until p step [] t = ([], t)
each_until p step (e ∷ es) t = elim (p e) [
  | false ↦ each_until p step es t
  | true ↦
      let (r, t') = step e t in
      elim (cleanup_phase_blocked (r ∷ [])) [
        | true ↦ (r ∷ [], t')
        | false ↦ let (rs, t'') = each_until p step es t' in (r ∷ rs, t'')
      ]
]

abbrev pub any_entry : {E : Type 0} → E → Bool
any_entry _ = true

-- The way on behind phases that may have stopped.
unfoldable pub go_on : Bool → Phase → Phase → Phase
go_on true stop next = stop
go_on false stop next = next

module _ (host : Host) (a : Allocation) where
  unfoldable pub delete_exact : Candidate → Option (List Str) → Run CleanupResult
  delete_exact c none t = (skipped c allocation_mismatch, t)
  delete_exact c (some args) t = run_delete host (text "ip") args c t

  unfoldable pub session_rule_result : PolicyRuleRollback → Run CleanupResult
  unfolding delete_exact
  session_rule_result r t =
      let c = rule_candidate r.priority r.table in
      if owned_rollback_metadata r.owner owner_policy_rule
      then delete_exact c (session_rule_delete_args a r) t
      else (skipped c non_podlaz_metadata, t)

  unfoldable pub session_route_result : RouteRollback → Run CleanupResult
  unfolding delete_exact
  session_route_result r t =
      let c = route_candidate r.cidr r.table in
      if owned_rollback_metadata r.owner owner_route
      then delete_exact c (session_route_delete_args a r) t
      else (skipped c non_podlaz_metadata, t)

module _ (host : Host) (runtime_dir path : CleanPath) (candidate : Candidate) (tx : Transaction)
    (a : Allocation) where
  unfoldable pub session_independent_phases : RollbackMetadata → List Phase
  unfolding each_until session_rule_result session_route_result
  session_independent_phases m =
      rollback_nftables_results host tx [] m.nftables
      ∷ each_until any_entry (session_rule_result host a) m.policy_rules
      ∷ each_until (λ r. not (is_session_link_route a r)) (session_route_result host a) m.routes
      ∷ []

  unfoldable pub session_matched_phases : Bool → RollbackMetadata → List Phase
  unfolding each_until session_rule_result session_route_result
  session_matched_phases children_absent m =
      rollback_nftables_results host tx [] m.nftables
      ∷ each (dns_result host) m.dns
      ∷ each_until any_entry (session_rule_result host a) m.policy_rules
      ∷ each_until any_entry (session_route_result host a) m.routes
      ∷ each (address_result host children_absent) m.tun_addresses
      ∷ each (tun_result host) m.tun
      ∷ []

  -- `stopAtBlocker`.
  unfoldable pub stop_at_blocker :
      RollbackMetadata → List CleanupResult → List CleanupResult → Phase
  stop_at_blocker m processes results t =
      let (rs, t') = preserve host runtime_dir path candidate tx m results processes t in
      (
        rs
            ++ ((if has_failed_cleanup rs
                  then failed candidate stopped_failed
                  else skipped candidate stopped_ambiguous)
                ∷ []),
        t',
      )

  unfoldable pub preserve_unproven :
      RollbackMetadata → List CleanupResult → Option CleanupResult → List CleanupResult → Phase
  preserve_unproven m processes gate rs t =
      let (ss, t') =
        preserve host runtime_dir path candidate tx m
          (rs ++ (gate_results gate ++ fail_link_scoped_rollback_results m)) processes t in
      (ss ++ (failed candidate link_identity_blocked ∷ []), t')

  unfoldable pub session_by_decision :
      RollbackMetadata
      → List Str
      → List CleanupResult
      → Bool
      → Option CleanupResult
      → LinkDecision
      → Phase
  unfolding preserve_unproven
  session_by_decision m gaps processes children_absent gate blocked t =
      let ((stopped, rs), t') = until_blocked (session_independent_phases m) t in
      go_on stopped (stop_at_blocker m processes rs) (preserve_unproven m processes gate rs) t'
  session_by_decision m gaps processes children_absent gate absent_child_absent t =
      let ((stopped, rs), t') = until_blocked (session_independent_phases m) t in
      go_on stopped (stop_at_blocker m processes rs)
        (finish host runtime_dir path candidate tx m candidate.target gaps processes (
          rs
          ++ (missing_link_route_results (is_session_link_route a) m.routes
              ++ (gate_results gate ++ (missing_link_scoped_rollback_results m ++ processes)))))
        t'
  session_by_decision m gaps processes children_absent gate matched t =
      let ((stopped, rs), t') = until_blocked (session_matched_phases children_absent m) t in
      go_on stopped (stop_at_blocker m processes rs)
        (finish host runtime_dir path candidate tx m candidate.target gaps processes
          (rs ++ processes))
        t'

  -- `cleanupAllocatedNetworkSessionTransaction`.
  unfoldable pub cleanup_allocated : Phase
  unfolding go_on session_by_decision session_independent_phases session_matched_phases
      stop_at_blocker
  cleanup_allocated t =
      let m = session_rollback_metadata a tx in
      let gaps = session_ownership_gaps a tx in
      let (processes, t1) = rollback_child_process_results host m.child_processes t in
      let children_absent = tracked_child_absence_proven m.child_processes processes in
      let ((gate, decision), t2) =
        rollback_link_identity_gate host m (session_link_identity m tx.applied_steps)
          children_absent t1 in
      session_by_decision m gaps processes children_absent gate decision t2
