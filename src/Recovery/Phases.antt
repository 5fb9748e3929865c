-- ===== src/Recovery/Phases.antt =====
-- The phases of the cleanup that both executors share (daemon_executor.go, tun_address_recovery.go,
-- cleanup_result_helpers.go, desired_plan_ambiguity.go).
use podlaz.Common.{
  ℕ, Bool, true, false, not, ◌&&◌, ◌||◌, ◌==◌, leb, Option, none, some, List, [], ◌∷◌, ◌++◌, Str,
  text, str_eq, elem, is_empty, trim_space, if◌then◌else◌,
}
use podlaz.Transaction.Model.{
  Transaction, RoutePlan, PlannedStep, TunRollback, TunAddressRollback, RouteRollback,
  PolicyRuleRollback, DnsRollback, NftablesRollback, GeneratedConfigRollback, ChildProcessRollback,
}
use podlaz.Recovery.Text.{CleanPath, itoa, clean, is_under_dir, join_path}
use podlaz.Recovery.Model.{
  Candidate, CleanupResult, Message, FirewallPlan, CommandResult, Presence, absent, present,
  inaccessible, Listing, no_directory, unreadable, has_entries, Host, Run, stat_process,
  roll_back_nftables, roll_back_address, read_directory, remove_all, remove, child_process,
  nftables_table, dns, tun_address, tun_interface, generated_runtime_config, child_absent,
  child_not_inspected, child_unidentified, not_recorded, rollback_failed, non_podlaz_metadata,
  no_pid, composition_unavailable, ambiguous_target, outside_runtime_state, config_preserved,
  remove_failed, command_failed, managed_interface, recovered, recovered_with_message, skipped,
  failed, resource, command_succeeded, command_failure_message, run, run_delete,
}
use podlaz.Recovery.Owners.{
  owner_tun_device, owner_route, owner_policy_rule, owner_dns, owner_firewall, main_routing_table,
  owned_rollback_metadata, is_managed_nft_target, is_managed_table, is_systemd_resolved_backend,
  is_safe_main_rule, is_safe_main_route,
}
use podlaz.Recovery.Metadata.{desired_policy_rule_rollback}
use podlaz.Recovery.Nftables.{exact_nftables_rollback_plan}
use podlaz.Recovery.Deletes.{
  is_owned, route_candidate, rule_candidate, rule_delete_args, main_rule_delete_args,
  route_delete_args, main_route_delete_args, link_delete_args, revert_args, tun_address_refusal,
  is_missing_device, is_unrecorded_route, is_unrecorded_step, priority_of,
}

-- A loop with one result for each entry.
unfoldable pub each : {E : Type 0} → (E → Run CleanupResult) → List E → Run (List CleanupResult)
each step [] t = ([], t)
each step (e ∷ es) t = let (r, t') = step e t in let (rs, t'') = each step es t' in (r ∷ rs, t'')

-- A loop that leaves out the entries that the test refuses.
unfoldable pub each_if :
    {E : Type 0} → (E → Bool) → (E → Run CleanupResult) → List E → Run (List CleanupResult)
each_if p step [] t = ([], t)
each_if p step (e ∷ es) t = elim (p e) [
  | true ↦ let (r, t') = step e t in let (rs, t'') = each_if p step es t' in (r ∷ rs, t'')
  | false ↦ each_if p step es t
]

unfoldable pub revert_result : CommandResult → Candidate → CleanupResult
revert_result r c =
    if command_succeeded r || is_missing_device r
    then recovered c
    else failed c (command_failed (command_failure_message r))

-- `inspectDesiredMainRoute` and `inspectDesiredMainPolicyRule`: nothing may be there.
unfoldable pub inspected : CommandResult → Candidate → CleanupResult
inspected r c =
    if not (command_succeeded r)
    then failed c (command_failed (command_failure_message r))
    else if is_empty (trim_space r.stdout)
    then recovered c
    else skipped c not_recorded

unfoldable pub presence_result : Presence → Candidate → CleanupResult
presence_result absent c = recovered_with_message c child_absent
presence_result inaccessible c = failed c child_not_inspected
presence_result present c = skipped c child_unidentified

unfoldable pub succeeded_or : Bool → Candidate → CleanupResult
succeeded_or b c = if b then recovered c else failed c rollback_failed

-- A removal that fails because nothing is there has succeeded.
abbrev pub removal_failed : Presence → Bool
removal_failed inaccessible = true
removal_failed _ = false

unfoldable pub generated_dir : CleanPath → CleanPath
generated_dir runtime_dir = join_path runtime_dir (text "generated")

-- The entries whose configuration may be removed; of the others, the message says why not.
unfoldable pub config_refusal : CleanPath → GeneratedConfigRollback → Option Message
config_refusal runtime_dir e =
    if not (is_owned e.owner)
    then some non_podlaz_metadata
    else if not (is_under_dir (generated_dir runtime_dir) (clean e.path))
    then some outside_runtime_state
    else none

unfoldable pub or_preserved : Option Message → Message
or_preserved none = config_preserved
or_preserved (some reason) = reason

unfoldable pub preserved_config : CleanPath → GeneratedConfigRollback → Run CleanupResult
preserved_config runtime_dir e t = (
  skipped (resource generated_runtime_config e.path) (or_preserved (config_refusal runtime_dir e)),
  t,
)

unfoldable pub preserve_generated_config_results :
    CleanPath → List GeneratedConfigRollback → Run (List CleanupResult)
unfolding each generated_dir config_refusal or_preserved preserved_config
preserve_generated_config_results runtime_dir es t = each (preserved_config runtime_dir) es t

-- `removeEmptyGeneratedRoot` behind the failed removal of the directory.
unfoldable pub root_refilled : Listing → Bool
root_refilled (has_entries b) = b
root_refilled _ = false

abbrev pub show_route_args : Str → List Str
show_route_args cidr =
    text "-4" ∷ text "route" ∷ text "show" ∷ text "table" ∷ main_routing_table ∷ cidr ∷ []

unfoldable pub show_rule_args : ℕ → List Str
show_rule_args priority =
    text "-4" ∷ text "rule" ∷ text "show" ∷ text "priority" ∷ itoa priority ∷ []

module _ (host : Host) where
  unfoldable pub process_result : ChildProcessRollback → Run CleanupResult
  process_result p t =
      let c = resource child_process (p.label ++ (text " pid " ++ itoa p.pid)) in
      if not (is_owned p.owner)
      then (skipped c non_podlaz_metadata, t)
      else if leb p.pid 1
      then (skipped c no_pid, t)
      else (presence_result (host.process t p.pid) c, stat_process p.pid ∷ t)

  unfoldable pub rollback_child_process_results :
      List ChildProcessRollback → Run (List CleanupResult)
  unfolding each process_result presence_result
  rollback_child_process_results ps t = each process_result ps t

  unfoldable pub nftables_planned : Candidate → Option FirewallPlan → Run CleanupResult
  nftables_planned c none t = (skipped c composition_unavailable, t)
  nftables_planned c (some plan) t =
      (succeeded_or (host.nftables_rollback t plan) c, roll_back_nftables plan ∷ t)

  unfoldable pub rollback_nftables_results :
      Transaction → List Str → List NftablesRollback → Run (List CleanupResult)
  unfolding nftables_planned succeeded_or
  rollback_nftables_results tx seen [] t = ([], t)
  rollback_nftables_results tx seen (e ∷ es) t =
      let c = resource nftables_table (e.family ++ (text " " ++ e.table)) in
      elim (owned_rollback_metadata e.owner owner_firewall
        && is_managed_nft_target e.family e.table) [
          | false ↦
              let (rs, t') = rollback_nftables_results tx seen es t in
              (skipped c ambiguous_target ∷ rs, t')
          | true ↦ elim (elem (e.family ++ (text " " ++ e.table)) seen) [
            | true ↦ rollback_nftables_results tx seen es t
            | false ↦
                let (r, t') = nftables_planned c (exact_nftables_rollback_plan tx e) t in
                let (rs, t'') =
                  rollback_nftables_results tx ((e.family ++ (text " " ++ e.table)) ∷ seen) es t' in
                (r ∷ rs, t'')
          ]
        ]

  unfoldable pub dns_result : DnsRollback → Run CleanupResult
  unfolding revert_result
  dns_result e t =
      let c = resource dns e.link in
      if owned_rollback_metadata e.owner owner_dns
        && str_eq e.link managed_interface
        && is_systemd_resolved_backend e.backend
      then (let (r, t') = run host (text "resolvectl") revert_args t in (revert_result r c, t'))
      else (skipped c ambiguous_target, t)

  unfoldable pub policy_rule_result : PolicyRuleRollback → Run CleanupResult
  policy_rule_result e t =
      let c = rule_candidate e.priority e.table in
      if not (owned_rollback_metadata e.owner owner_policy_rule)
      then (skipped c non_podlaz_metadata, t)
      else if is_safe_main_rule e
      then run_delete host (text "ip") (main_rule_delete_args e) c t
      else if not (is_managed_table e.table)
      then (skipped c ambiguous_target, t)
      else if e.priority == 0
      then (recovered c, t)
      else run_delete host (text "ip") (rule_delete_args e) c t

  unfoldable pub route_result : RouteRollback → Run CleanupResult
  route_result e t =
      let c = route_candidate e.cidr e.table in
      if not (owned_rollback_metadata e.owner owner_route)
      then (skipped c non_podlaz_metadata, t)
      else if is_safe_main_route e
      then run_delete host (text "ip") (main_route_delete_args e) c t
      else if str_eq (trim_space e.table) main_routing_table || not (is_managed_table e.table)
      then (skipped c ambiguous_target, t)
      else if not (is_empty (trim_space e.dev)) && not (str_eq e.dev managed_interface)
      then (skipped c ambiguous_target, t)
      else if is_empty (trim_space e.cidr)
      then (recovered c, t)
      else run_delete host (text "ip") (route_delete_args e) c t

  unfoldable pub address_checked :
      Candidate → TunAddressRollback → Bool → Option Message → Run CleanupResult
  address_checked c e allow_missing (some reason) t = (skipped c reason, t)
  address_checked c e allow_missing none t = (
    succeeded_or (host.address_rollback t e allow_missing) c,
    roll_back_address e allow_missing ∷ t,
  )

  unfoldable pub address_result : Bool → TunAddressRollback → Run CleanupResult
  unfolding address_checked succeeded_or
  address_result allow_missing e t =
      let c =
        resource tun_address
          (e.interface_name ++ (text "@ifindex=" ++ (itoa e.link_index ++ (text ":" ++ e.cidr)))) in
      address_checked c e allow_missing (tun_address_refusal e) t

  unfoldable pub tun_result : TunRollback → Run CleanupResult
  tun_result e t =
      let c = resource tun_interface e.interface_name in
      if owned_rollback_metadata e.owner owner_tun_device
        && str_eq e.interface_name managed_interface
      then run_delete host (text "ip") link_delete_args c t
      else (skipped c ambiguous_target, t)

  unfoldable pub remove_listed_root : CleanPath → Listing → Run Bool
  remove_listed_root root no_directory t = (true, t)
  remove_listed_root root unreadable t = (false, t)
  remove_listed_root root (has_entries true) t = (true, t)
  remove_listed_root root (has_entries false) t =
      let t' = remove root ∷ t in
      if removal_failed (host.removes t root)
      then (root_refilled (host.directory t' root), read_directory root ∷ t')
      else (true, t')

  unfoldable pub remove_empty_generated_root : CleanPath → Run Bool
  unfolding generated_dir root_refilled remove_listed_root
  remove_empty_generated_root runtime_dir t =
      let root = generated_dir runtime_dir in
      remove_listed_root root (host.directory t root) (read_directory root ∷ t)

  unfoldable pub checked_config :
      CleanPath → GeneratedConfigRollback → Option Message → Run CleanupResult
  checked_config runtime_dir e (some reason) t =
      (skipped (resource generated_runtime_config e.path) reason, t)
  checked_config runtime_dir e none t =
      let c = resource generated_runtime_config e.path in
      let path = clean e.path in
      let t' = remove_all path ∷ t in
      if removal_failed (host.removes t path)
      then (failed c remove_failed, t')
      else (let (b, t'') = remove_empty_generated_root runtime_dir t' in
          ((if b then recovered c else failed c remove_failed), t''))

  unfoldable pub config_result : CleanPath → GeneratedConfigRollback → Run CleanupResult
  unfolding checked_config config_refusal generated_dir
  config_result runtime_dir e t = checked_config runtime_dir e (config_refusal runtime_dir e) t

  unfoldable pub inspected_route : RoutePlan → Run CleanupResult
  inspected_route r t =
      let (x, t') = run host (text "ip") (show_route_args r.cidr) t in
      (inspected x (route_candidate r.cidr r.table), t')

  unfoldable pub inspected_step : PlannedStep → Run CleanupResult
  inspected_step s t =
      let priority = priority_of (desired_policy_rule_rollback s) in
      let (x, t') = run host (text "ip") (show_rule_args priority) t in
      (inspected x (rule_candidate priority main_routing_table), t')

  unfoldable pub inspect_unrecorded_desired_main_state : Transaction → Run (List CleanupResult)
  unfolding each_if inspected_route inspected_step inspected priority_of
  inspect_unrecorded_desired_main_state tx t =
      let (rs, t') =
        each_if (is_unrecorded_route tx.rollback) inspected_route tx.desired_plan.routes t in
      let (ss, t'') =
        each_if (is_unrecorded_step tx.rollback) inspected_step tx.desired_plan.steps t' in
      (rs ++ ss, t'')
