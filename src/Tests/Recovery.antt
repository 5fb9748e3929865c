-- ===== src/Tests/Recovery.antt =====
-- Recoveries of a crashed session.
use podlaz.Common.{
  arith, is_space, ◌≡◌, refl, true, false, none, some, List, [], ◌∷◌, Str, text, map, length, All,
  str_eq, if◌then◌else◌, keep, trim_space, parse_ip4, split_on, cut_prefix, to_lower, is_digit,
  ℕ_discrete,
}
use podlaz.Transaction.Model.{Transaction, PolicyRuleRollback, RouteRollback, applied}
use podlaz.Transaction.Lifecycle.{TransactionState-discrete}
use podlaz.Recovery.Text.{
  CleanPath, itoa, join, fields, occurs_in, has_prefix, drop_last, atoi, parse_uint32, host_prefix,
  is_host_prefix,
}
use podlaz.Recovery.Model.{
  CommandResult, Host, command, remove_transaction, Candidate, CleanupResult, is_recovered, absent,
  no_directory, transaction_state, generated_runtime_configs, tun_interface, resource,
  command_succeeded, mentions, resource_missing, command_failure_message, command_error_is_missing,
  run_error, delete_result, run_delete,
}
use podlaz.Recovery.Owners.{
  owned_rollback_metadata, normalized_rollback_owner, is_managed_nft_target, managed_table_token,
  is_managed_table, is_allocated_tun_ipv4_cidr, is_allocated_tun_routing_table,
  is_systemd_resolved_backend, is_safe_main_rule, is_safe_main_route, is_link_dependent_route,
}
use podlaz.Recovery.Counters.{count, keys, size, counter_equal, counter_subset, compact_reasons}
use podlaz.Recovery.Keys.{
  network_kind, joined, applied_step_key, tun_address_rollback_target, route_rollback_target,
  policy_rule_rollback_target, nft_rollback_target, rollback_network_step_counter, is_owned_step,
  step_key, applied_network_step_counter, is_desired_route,
}
use podlaz.Recovery.Raw.{
  is_raw_tun, is_raw_tun_address, is_raw_route, is_raw_policy_rule, is_raw_dns, is_raw_nftables,
  raw_rollback_metadata_reasons, looks_network_owned, raw_applied_network_step_reasons,
  raw_transaction_network_ownership_reasons,
}
use podlaz.Recovery.Metadata.{
  route_rollback_key, desired_route_counter, rollback_route_counter, desired_by_short,
  ambiguous_desired_routes, policy_rule_rollback_key, desired_policy_rule_rollback,
  desired_policy_rule_counter, dns_rollback_key, is_desired_dns, desired_dns_counter,
  nft_rollback_key, is_desired_nft, desired_nft_counter, rollback_desired_subset_mismatches,
  applied_rollback_mismatches, ownership_reasons_from, rollback_ownership_consistency_reasons,
  mutation_free_ambiguous_rollback, is_applying_address, with_applying_address, project_metadata,
  recovery_rollback_metadata, is_desired_tun_address, is_bound_applying_address, ownership_gaps_by,
  applying_desired_ownership_gaps,
}
use podlaz.Recovery.Nftables.{exact_nftables_rollback_plan}
use podlaz.Recovery.Deletes.{
  rule_delete_args, route_delete_args, link_delete_args, is_unrecorded_route, is_unrecorded_step,
}
use podlaz.Recovery.Phases.{
  each, each_if, process_result, rollback_child_process_results, rollback_nftables_results,
  dns_result, policy_rule_result, route_result, address_result, tun_result,
  preserve_generated_config_results, config_result, inspected_route, inspected_step,
  inspect_unrecorded_desired_main_state,
}
use podlaz.Recovery.Links.{
  requires_link_identity, exact_address_identity, exact_creation_identity, parse_creation_proof,
  identity_of, exact_link_identity, show_link_args, parse_rollback_link_identity, shows_link,
  gate_decision, expected_gate, rollback_link_identity_gate, tracked_child_absence_proven,
}
use podlaz.Recovery.Cleanup.{
  until_blocked, in_turn, conclude, config_branch, config_phase, finish, preserve,
  fail_link_scoped_rollback_results,
}
use podlaz.Recovery.Legacy.{independent_phases, matched_phases, by_decision, cleanup_loaded}
use podlaz.Recovery.Allocation.{
  Allocation, session_rollback_metadata, session_link_identity, session_ownership_gaps,
  is_session_address, is_default_route, is_session_link_route, session_rule_delete_args,
  session_route_delete_args,
}
use podlaz.Recovery.Exact.{rule_deletion, route_deletion}
use podlaz.Recovery.Allocated.{
  cleanup_allocated, each_until, go_on, delete_exact, session_rule_result, session_route_result,
  session_by_decision, session_matched_phases, stop_at_blocker,
}
use podlaz.Recovery.Authority.{IsLook, IsProvenLink, IsAuthorized, after_processes}
use podlaz.Recovery.Dispatch.{order_cleanup_candidates}
use podlaz.Recovery.Safety.{
  cleanup_loaded-IsAuthorized, cleanup_allocated-IsAuthorized, ambiguous-IsLook,
}
use podlaz.Recovery.Conclusions.{Ends, cleanup-Ends}
use podlaz.Recovery.Rules.{rule_step, selected, mark, desired_rule-target}
use podlaz.Recovery.Order.{IsOrdered, of_weight, order_cleanup_candidates-IsOrdered}
use podlaz.Tests.Transaction.{in_state}

abbrev session : Transaction
session =
    let d = (in_state applied).desired_plan in
    let m = (in_state applied).rollback in
    record (in_state applied) {
      desired_plan = record d {
        routes =
            record {
              kind = text "route";
              table = text "podlaz";
              cidr = text "default";
              via = [];
              dev = text "podlaz0";
              priority = 0;
              owner = text "podlaz:route";
              operation = text "add";
            }
            ∷ [];
        steps =
            record {
              kind = text "policy-rule";
              target = text "priority 10000 from all lookup podlaz";
              description = [];
              owner = text "podlaz:policy-rule";
            }
            ∷ [];
      };
      applied_steps =
          record {
            kind = text "tun-device";
            target = text "podlaz0";
            description =
                text
                  "creation-proof-name=podlaz0; creation-proof-kind=tun; creation-proof-pre-existing-absent=true; creation-proof-ifindex=7";
            applied_at = 6;
            owner = text "podlaz:tun-device";
          }
          ∷ record {
            kind = text "route";
            target = text "podlaz default";
            description = [];
            applied_at = 6;
            owner = text "podlaz:route";
          }
          ∷ record {
            kind = text "policy-rule";
            target = text "priority 10000 from all lookup podlaz";
            description = [];
            applied_at = 6;
            owner = text "podlaz:policy-rule";
          }
          ∷ [];
      rollback = record m {
        tun = record { interface_name = text "podlaz0"; owner = text "podlaz:tun-device" } ∷ [];
        routes =
            record {
              table = text "podlaz";
              cidr = text "default";
              via = [];
              dev = text "podlaz0";
              owner = text "podlaz:route";
            }
            ∷ [];
        policy_rules =
            record {
              priority = 10000;
              from = text "all";
              to = [];
              table = text "podlaz";
              mark = [];
              owner = text "podlaz:policy-rule";
            }
            ∷ [];
      };
    }

-- The steps of the session were never recorded.
abbrev unrecorded : Transaction
unrecorded = record session { applied_steps = [] }

abbrev answer : Str → CommandResult
answer out = record {
  stdout = out;
  stderr = [];
  raw_stdout = out;
  raw_stderr = [];
  exit_code = some 0;
  error = none;
  cancelled = false;
}

first : List Str → Str
first [] = []
first (s ∷ ss) = s

-- Every command succeeds, and the link of the session is there.
abbrev host : Host
host = record {
  process = λ t n. absent;
  run_command = λ t cmd args. answer (
      if str_eq (first args) (text "-details")
      then text "7: podlaz0: <UP> mtu 1500 type tun"
      else []);
  nftables_rollback = λ t plan. true;
  address_rollback = λ t e b. true;
  load = λ t p. some session;
  directory = λ t p. no_directory;
  removes = λ t p. absent;
}

abbrev runtime_dir : CleanPath
runtime_dir = record { rooted = true; segments = text "run" ∷ text "podlaz" ∷ [] }

abbrev file : CleanPath
file = record {
  rooted = true;
  segments = text "run" ∷ text "podlaz" ∷ text "transactions" ∷ text "tx-1.json" ∷ [];
}

abbrev candidate : Candidate
candidate = record {
  kind = transaction_state;
  target = text "/run/podlaz/transactions/tx-1.json";
  transaction = none;
}

program : Unit {0}
unfolding first itoa join fields occurs_in has_prefix drop_last atoi parse_uint32 host_prefix
    is_host_prefix command_succeeded mentions resource_missing command_failure_message
    command_error_is_missing run_error delete_result run_delete owned_rollback_metadata
    normalized_rollback_owner is_managed_nft_target managed_table_token is_managed_table
    is_allocated_tun_ipv4_cidr is_allocated_tun_routing_table is_systemd_resolved_backend
    is_safe_main_rule is_safe_main_route is_link_dependent_route count keys size counter_equal
    counter_subset compact_reasons network_kind joined applied_step_key tun_address_rollback_target
    route_rollback_target policy_rule_rollback_target nft_rollback_target
    rollback_network_step_counter is_owned_step step_key applied_network_step_counter
    is_desired_route is_raw_tun is_raw_tun_address is_raw_route is_raw_policy_rule is_raw_dns
    is_raw_nftables raw_rollback_metadata_reasons looks_network_owned
    raw_applied_network_step_reasons raw_transaction_network_ownership_reasons route_rollback_key
    desired_route_counter rollback_route_counter desired_by_short ambiguous_desired_routes
    policy_rule_rollback_key desired_policy_rule_rollback desired_policy_rule_counter
    dns_rollback_key is_desired_dns desired_dns_counter nft_rollback_key is_desired_nft
    desired_nft_counter rollback_desired_subset_mismatches applied_rollback_mismatches
    ownership_reasons_from rollback_ownership_consistency_reasons mutation_free_ambiguous_rollback
    is_applying_address with_applying_address project_metadata recovery_rollback_metadata
    is_desired_tun_address is_bound_applying_address ownership_gaps_by
    applying_desired_ownership_gaps exact_nftables_rollback_plan rule_delete_args route_delete_args
    is_unrecorded_route is_unrecorded_step each each_if process_result
    rollback_child_process_results rollback_nftables_results dns_result policy_rule_result
    route_result address_result tun_result preserve_generated_config_results config_result
    inspected_route inspected_step inspect_unrecorded_desired_main_state requires_link_identity
    exact_address_identity exact_creation_identity parse_creation_proof identity_of
    exact_link_identity parse_rollback_link_identity shows_link gate_decision expected_gate
    rollback_link_identity_gate tracked_child_absence_proven in_turn conclude config_branch
    config_phase finish preserve fail_link_scoped_rollback_results independent_phases matched_phases
    by_decision cleanup_loaded TransactionState-discrete str_eq keep trim_space parse_ip4 split_on
    cut_prefix to_lower is_digit ℕ_discrete
program = tt

consistent : rollback_ownership_consistency_reasons session session.rollback ≡ []
unfolding program
consistent = refl

-- The rule, the route and the link go, and then the file.
recovers :
    map
      (λ (r : CleanupResult). r.status)
      (cleanup_loaded host runtime_dir file candidate session []).0
    ≡ is_recovered ∷ is_recovered ∷ is_recovered ∷ is_recovered ∷ []
unfolding program
recovers = refl

calls : length (cleanup_loaded host runtime_dir file candidate session []).1 ≡ 5
unfolding program
calls = refl

abbrev allocation : Allocation
allocation = record {
  tun_ipv4_cidr = text "198.18.0.9/32";
  routing_table = text "podlaz";
  server_rule_priority = 9998;
  tunnel_rule_priority = 10000;
  egress_mark = 0;
}

deletes_allocated :
    (cleanup_allocated host runtime_dir file candidate session allocation []).1
    ≡ remove_transaction file
      ∷ command (text "ip") link_delete_args
      ∷ command (text "ip") (route_deletion (text "default") [] (text "podlaz0") (text "podlaz"))
      ∷ command (text "ip") (rule_deletion 10000 (text "from" ∷ text "all" ∷ []) (text "podlaz"))
      ∷ command (text "ip") show_link_args
      ∷ []
unfolding program session_rollback_metadata session_link_identity session_ownership_gaps
    is_session_address is_default_route is_session_link_route session_rule_delete_args
    session_route_delete_args each_until go_on delete_exact session_rule_result session_route_result
    session_by_decision session_matched_phases stop_at_blocker cleanup_allocated until_blocked
deletes_allocated = refl

abbrev server_rule : PolicyRuleRollback
server_rule = record {
  priority = 9998;
  from = [];
  to = text "203.0.113.7/32";
  table = text "main";
  mark = [];
  owner = text "podlaz:policy-rule";
}

by_address :
    session_rule_delete_args allocation server_rule
    ≡ some (rule_deletion 9998 (text "to" ∷ text "203.0.113.7/32" ∷ []) (text "main"))
unfolding program session_rule_delete_args
by_address = refl

by_mark :
    session_rule_delete_args
      (record allocation { egress_mark = 112 })
      (record server_rule { to = []; mark = text "0x70" })
    ≡ some (rule_deletion 9998 (text "fwmark" ∷ text "112" ∷ []) (text "main"))
unfolding program session_rule_delete_args
by_mark = refl

foreign_priority :
    session_rule_delete_args allocation (record server_rule { priority = 9997 }) ≡ none
unfolding program session_rule_delete_args
foreign_priority = refl

abbrev server_route : RouteRollback
server_route = record {
  table = text "main";
  cidr = text "203.0.113.7/32";
  via = text "192.168.1.1";
  dev = text "eth0";
  owner = text "podlaz:route";
}

abbrev server_rule_args : List Str
server_rule_args = rule_deletion 9998 (text "to" ∷ text "203.0.113.7/32" ∷ []) (text "main")

abbrev server_route_args : List Str
server_route_args =
    route_deletion (text "203.0.113.7/32") (text "via" ∷ text "192.168.1.1" ∷ []) (text "eth0")
      (text "main")

by_gateway : session_route_delete_args allocation server_route ≡ some server_route_args
unfolding program is_default_route is_session_link_route session_route_delete_args
by_gateway = refl

cleanup_loaded-IsAuthorized_example :
    All
      (IsAuthorized none runtime_dir file session (recovery_rollback_metadata session) (
        IsProvenLink host
          (exact_link_identity (recovery_rollback_metadata session) session.applied_steps)
          (after_processes host (recovery_rollback_metadata session) []).1))
      (cleanup_loaded host runtime_dir file candidate session []).1
cleanup_loaded-IsAuthorized_example =
    cleanup_loaded-IsAuthorized host runtime_dir file candidate session

cleanup_allocated-IsAuthorized_example :
    All
      (IsAuthorized
        (some allocation)
        runtime_dir
        file
        session
        (session_rollback_metadata allocation session)
        (IsProvenLink host
          (session_link_identity
            (session_rollback_metadata allocation session)
            session.applied_steps)
          (after_processes host (session_rollback_metadata allocation session) []).1))
      (cleanup_allocated host runtime_dir file candidate session allocation []).1
cleanup_allocated-IsAuthorized_example =
    cleanup_allocated-IsAuthorized host runtime_dir file candidate session allocation

ambiguous-IsLook_example :
    All IsLook (cleanup_loaded host runtime_dir file candidate unrecorded []).1
    × All IsLook (cleanup_allocated host runtime_dir file candidate unrecorded allocation []).1
unfolding program
ambiguous-IsLook_example =
    ambiguous-IsLook host runtime_dir file candidate unrecorded allocation refl

cleanup-Ends_example :
    Ends file (cleanup_loaded host runtime_dir file candidate session [])
    × Ends file (cleanup_allocated host runtime_dir file candidate session allocation [])
cleanup-Ends_example = cleanup-Ends host runtime_dir file candidate session allocation

abbrev scanned : List Candidate
scanned = resource generated_runtime_configs [] ∷ resource tun_interface [] ∷ candidate ∷ []

order_cleanup_candidates-IsOrdered_example :
    IsOrdered (order_cleanup_candidates scanned)
    × (of_weight 30 (order_cleanup_candidates scanned) ≡ of_weight 30 scanned)
order_cleanup_candidates-IsOrdered_example = order_cleanup_candidates-IsOrdered scanned 30

desired_rule-target_example :
    desired_policy_rule_rollback (
      rule_step
        (policy_rule_rollback_target
          (selected mark 9999 (text "0x5056") (text "main") (text "podlaz")))
        (text "podlaz"))
    ≡ some (selected mark 9999 (text "0x5056") (text "main") (text "podlaz"))
unfolding program is_space
desired_rule-target_example =
    desired_rule-target mark 9999 (text "0x5056") (text "main") (text "podlaz") (ground arith) refl
      refl refl refl
