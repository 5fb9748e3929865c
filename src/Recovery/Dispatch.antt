-- ===== src/Recovery/Dispatch.antt =====
-- The cleanup of the candidates of a scan, in their order (recovery.go: `ExecuteWithOptions`,
-- `orderCleanupCandidates`; `CleanupMany` of daemon_executor.go and of
-- network_session_cleanup_executor.go). The cleanup of a bare link of systemd-resolved (resolved.go) and
-- the inspection of a bare table are arguments.
use mathlib.Core.List.{reverse}
use podlaz.Common.{
  ℕ, Bool, not, ◌&&◌, ltb, Option, none, some, List, [], ◌∷◌, ◌++◌, Str, text, is_empty, trim_space,
  if◌then◌else◌,
}
use podlaz.Transaction.Model.{Transaction}
use podlaz.Transaction.Lifecycle.{requires_recovery}
use podlaz.Recovery.Text.{CleanPath, clean, same_clean_path, is_transaction_path, join_path}
use podlaz.Recovery.Model.{
  Kind, tun_interface, nftables_table, managed_dns, transaction_state, generated_runtime_configs,
  runtime_directory, other_kind, TransactionCandidate, Candidate, CleanupResult, Host, recovered,
  skipped, failed, missing_kind, unsupported_kind, runtime_root_unsupported, not_ownership_proof,
  non_podlaz_target, outside_runtime_state, missing_summary, load_failed, remove_failed,
  managed_interface, read_transaction, remove_all,
}
use podlaz.Recovery.Phases.{removal_failed}
use podlaz.Recovery.Cleanup.{Phase}
use podlaz.Recovery.Legacy.{cleanup_loaded}
use podlaz.Recovery.Allocation.{Allocation, exact_persisted_allocation}
use podlaz.Recovery.Allocated.{cleanup_allocated}
use podlaz.Common.{str_eq}

-- `orderCleanupCandidates`.
unfoldable pub weight : Kind → ℕ
weight transaction_state = 10
weight nftables_table = 20
weight managed_dns = 25
weight tun_interface = 30
weight generated_runtime_configs = 40
weight runtime_directory = 50
weight _ = 100

abbrev pub outweighs : Candidate → Candidate → Bool
outweighs c d = ltb (weight d.kind) (weight c.kind)

-- The swaps of one candidate with those in front of it, the nearest one first.
unfoldable pub sink : Candidate → List Candidate → List Candidate
sink c [] = c ∷ []
sink c (p ∷ ps) = let rest = sink c ps in if outweighs p c then p ∷ rest else c ∷ p ∷ ps

-- The candidates that are ordered so far, the last one first.
unfoldable pub sink_all : List Candidate → List Candidate → List Candidate
unfolding sink
sink_all sorted [] = sorted
sink_all sorted (c ∷ cs) = sink_all (sink c sorted) cs

unfoldable pub order_cleanup_candidates : List Candidate → List Candidate
unfolding sink_all
order_cleanup_candidates cs = reverse (sink_all [] cs)

module _ (host : Host) (runtime_dir : CleanPath) where
  recover_loaded : Candidate → CleanPath → Option Transaction → Phase
  recover_loaded c path none t = (failed c load_failed ∷ [], t)
  recover_loaded c path (some tx) t =
      if requires_recovery tx
      then cleanup_loaded host runtime_dir path c tx t
      else (recovered c ∷ [], t)

  unfoldable pub is_recorded_path : Candidate → CleanPath → Bool
  is_recorded_path c path =
      same_clean_path path (clean c.target) && is_transaction_path runtime_dir path

  -- `DaemonCleanupExecutor.cleanupTransactionState`.
  unfoldable pub cleanup_transaction_state : Candidate → Option TransactionCandidate → Phase
  unfolding recover_loaded
  cleanup_transaction_state c none t = (skipped c missing_summary ∷ [], t)
  cleanup_transaction_state c (some s) t =
      let path = clean s.path in
      if is_recorded_path c path
      then recover_loaded c path (host.load t path) (read_transaction path ∷ t)
      else (skipped c outside_runtime_state ∷ [], t)

  unfoldable pub cleanup_generated_runtime_configs : Candidate → Phase
  cleanup_generated_runtime_configs c t =
      let dir = join_path runtime_dir (text "generated") in
      if not (same_clean_path (clean c.target) dir)
      then (skipped c outside_runtime_state ∷ [], t)
      else if removal_failed (host.removes t dir)
      then (failed c remove_failed ∷ [], remove_all dir ∷ t)
      else (recovered c ∷ [], remove_all dir ∷ t)

  -- `cleanupTUNInterface`.
  tun_interface_result : Candidate → CleanupResult
  tun_interface_result c =
      if str_eq c.target managed_interface
      then skipped c not_ownership_proof
      else skipped c non_podlaz_target

  unsupported : Candidate → Str → CleanupResult
  unsupported c kind =
      if is_empty (trim_space kind) then skipped c missing_kind else skipped c unsupported_kind

  module _ (resolved_link standalone_table : Candidate → Phase) where
    -- `DaemonCleanupExecutor.CleanupMany`.
    unfoldable pub legacy_cleanup_many : Candidate → Kind → Phase
    unfolding tun_interface_result unsupported
    legacy_cleanup_many c tun_interface t = (tun_interface_result c ∷ [], t)
    legacy_cleanup_many c managed_dns t = resolved_link c t
    legacy_cleanup_many c nftables_table t = (skipped c not_ownership_proof ∷ [], t)
    legacy_cleanup_many c transaction_state t = cleanup_transaction_state c c.transaction t
    legacy_cleanup_many c generated_runtime_configs t = cleanup_generated_runtime_configs c t
    legacy_cleanup_many c runtime_directory t = (skipped c runtime_root_unsupported ∷ [], t)
    legacy_cleanup_many c (other_kind k) t = (unsupported c k ∷ [], t)
    legacy_cleanup_many c _ t = (skipped c unsupported_kind ∷ [], t)

    with_allocation : Candidate → CleanPath → Transaction → Option Allocation → Phase
    with_allocation c path tx none t = cleanup_transaction_state c c.transaction t
    with_allocation c path tx (some a) t = cleanup_allocated host runtime_dir path c tx a t

    loaded_session : Candidate → CleanPath → Option Transaction → Phase
    loaded_session c path none t = cleanup_transaction_state c c.transaction t
    loaded_session c path (some tx) t =
        if requires_recovery tx
        then with_allocation c path tx (exact_persisted_allocation tx) t
        else cleanup_transaction_state c c.transaction t

    -- A transaction with an exact allocation is cleaned up by it, every other one by the fixed
    -- resources, for which its file is read once more.
    unfoldable pub cleanup_session_state : Candidate → Option TransactionCandidate → Phase
    unfolding with_allocation loaded_session
    cleanup_session_state c none t = cleanup_transaction_state c c.transaction t
    cleanup_session_state c (some s) t =
        let path = clean s.path in
        if is_recorded_path c path
        then loaded_session c path (host.load t path) (read_transaction path ∷ t)
        else cleanup_transaction_state c c.transaction t

    -- `NetworkSessionCleanupExecutor.CleanupMany`.
    unfoldable pub cleanup_many : Candidate → Kind → Phase
    cleanup_many c nftables_table t = standalone_table c t
    cleanup_many c transaction_state t = cleanup_session_state c c.transaction t
    cleanup_many c k t = legacy_cleanup_many c k t

    unfoldable pub cleanup_all : List Candidate → Phase
    unfolding cleanup_many legacy_cleanup_many cleanup_session_state
    cleanup_all [] t = ([], t)
    cleanup_all (c ∷ cs) t =
        let (rs, t') = cleanup_many c c.kind t in
        let (ss, t'') = cleanup_all cs t' in (rs ++ ss, t'')

    -- `ExecuteWithOptions`, on the candidates of the scan.
    unfoldable pub execute : List Candidate → Phase
    execute candidates t = cleanup_all (order_cleanup_candidates candidates) t
