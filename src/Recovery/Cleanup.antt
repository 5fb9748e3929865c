-- ===== src/Recovery/Cleanup.antt =====
-- The parts of the cleanup of a transaction that both executors compose: the phases in turn, the
-- results about a link that is gone or unproven, and the end (daemon_executor.go).
use podlaz.Common.{
  Bool, true, false, not, ◌||◌, Option, none, some, List, [], ◌∷◌, ◌++◌, Str, text, is_empty, map,
  keep, if◌then◌else◌,
}
use podlaz.Transaction.Model.{
  Transaction, RollbackMetadata, RouteRollback, TunRollback, TunAddressRollback, DnsRollback,
}
use podlaz.Recovery.Text.{CleanPath}
use podlaz.Recovery.Model.{
  Candidate, CleanupResult, Host, Run, dns, tun_address, tun_interface, transaction_ownership,
  resource, recovered, recovered_with_message, skipped, failed, has_failed_cleanup,
  has_skipped_cleanup, cleanup_phase_blocked, link_identity_unproven, link_absent, ownership_gaps,
  completed_with_failures, skipped_ambiguous, remove_failed, remove_transaction,
}
use podlaz.Recovery.Deletes.{route_candidate}
use podlaz.Recovery.Phases.{
  each, removal_failed, preserve_generated_config_results, config_result,
  inspect_unrecorded_desired_main_state,
}

abbrev pub Phase : Type 0
Phase = Run (List CleanupResult)

-- Results that need no call.
abbrev pub only_results : List CleanupResult → Phase
only_results rs t = (rs, t)

-- Every phase, one after the other.
unfoldable pub in_turn : List Phase → Phase
in_turn [] t = ([], t)
in_turn (p ∷ ps) t = let (rs, t') = p t in let (ss, t'') = in_turn ps t' in (rs ++ ss, t'')

-- The phases up to the first one that is blocked, and whether one was.
unfoldable pub until_blocked : List Phase → Run (Bool × List CleanupResult)
until_blocked [] t = ((false, []), t)
until_blocked (p ∷ ps) t =
    let (rs, t') = p t in
    elim (cleanup_phase_blocked rs) [
      | true ↦ ((true, rs), t')
      | false ↦ let ((b, ss), t'') = until_blocked ps t' in ((b, rs ++ ss), t'')
    ]

link_scoped : RollbackMetadata → List Candidate
link_scoped m =
    map (λ (e : DnsRollback). resource dns e.link) m.dns
    ++ (map
          (λ (e : TunAddressRollback).
            resource tun_address (e.interface_name ++ (text " " ++ e.cidr)))
          m.tun_addresses
        ++ map (λ (e : TunRollback). resource tun_interface e.interface_name) m.tun)

unfoldable pub fail_link_scoped_rollback_results : RollbackMetadata → List CleanupResult
unfolding link_scoped
fail_link_scoped_rollback_results m = map (λ c. failed c link_identity_unproven) (link_scoped m)

unfoldable pub missing_link_scoped_rollback_results : RollbackMetadata → List CleanupResult
unfolding link_scoped
missing_link_scoped_rollback_results m =
    map (λ c. recovered_with_message c link_absent) (link_scoped m)

-- The routes over a link that is gone; which they are is the executor's.
unfoldable pub missing_link_route_results :
    (RouteRollback → Bool) → List RouteRollback → List CleanupResult
missing_link_route_results is_dependent routes =
    map (λ (r : RouteRollback). recovered_with_message (route_candidate r.cidr r.table) link_absent)
      (keep is_dependent routes)

abbrev pub gate_results : Option CleanupResult → List CleanupResult
gate_results none = []
gate_results (some r) = r ∷ []

unfoldable pub gap_results : Str → List Str → List CleanupResult
gap_results target [] = []
gap_results target (g ∷ gs) =
    skipped (resource transaction_ownership target) (ownership_gaps (g ∷ gs)) ∷ []

module _ (host : Host) (runtime_dir path : CleanPath) (candidate : Candidate) where
  -- The end of a cleanup: the file of the transaction goes only if every result is a recovery.
  unfoldable pub conclude : List CleanupResult → Phase
  conclude rs t =
      if has_failed_cleanup rs
      then (rs ++ (failed candidate completed_with_failures ∷ []), t)
      else if has_skipped_cleanup rs
      then (rs ++ (skipped candidate skipped_ambiguous ∷ []), t)
      else if removal_failed (host.removes t path)
      then (rs ++ (failed candidate remove_failed ∷ []), remove_transaction path ∷ t)
      else (rs ++ (recovered candidate ∷ []), remove_transaction path ∷ t)

  unfoldable pub config_branch : Bool → RollbackMetadata → Phase
  config_branch true m t = preserve_generated_config_results runtime_dir m.generated_configs t
  config_branch false m t = each (config_result host runtime_dir) m.generated_configs t

  unfoldable pub config_phase : List Str → List CleanupResult → RollbackMetadata → Phase
  unfolding config_branch
  config_phase gaps processes m t =
      config_branch (not (is_empty gaps) || cleanup_phase_blocked processes) m t

  -- Behind the phases of the network.
  unfoldable pub finish :
      Transaction
      → RollbackMetadata
      → Str
      → List Str
      → List CleanupResult
      → List CleanupResult
      → Phase
  unfolding gap_results config_phase
  finish tx m target gaps processes results t =
      let (rs, t') =
        in_turn
          (only_results (results ++ gap_results target gaps)
            ∷ config_phase gaps processes m
            ∷ inspect_unrecorded_desired_main_state host tx
            ∷ [])
          t in
      conclude rs t'

  -- What is done when the cleanup may not go on: nothing is removed.
  unfoldable pub preserve :
      Transaction → RollbackMetadata → List CleanupResult → List CleanupResult → Phase
  preserve tx m results processes t =
      in_turn
        (only_results (results ++ processes)
          ∷ preserve_generated_config_results runtime_dir m.generated_configs
          ∷ inspect_unrecorded_desired_main_state host tx
          ∷ [])
        t
