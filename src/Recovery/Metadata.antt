-- ===== src/Recovery/Metadata.antt =====
-- What of a stored transaction authorizes the cleanup of the network (desired_plan_rollback.go, and
-- `applyingDesiredOwnershipGaps` of daemon_executor.go).
use podlaz.Common.{
  ℕ, Bool, not, ◌&&◌, ◌==◌, ltb, Option, none, some, List, [], ◌∷◌, ◌++◌, Str, text, str_eq,
  is_empty, is_some, trim_space, if◌then◌else◌, same, map, keep, length,
}
use podlaz.Transaction.Model.{
  Transaction, TransactionState, planned, applying, DesiredPlan, RoutePlan, PlannedStep, DnsPlan,
  NftPlan, TunAddressDesiredState, RollbackMetadata, RouteRollback, PolicyRuleRollback, DnsRollback,
  NftablesRollback, ChildProcessRollback, transaction_owner,
}
use podlaz.Transaction.Lifecycle.{TransactionState-discrete}
use podlaz.Recovery.Text.{itoa, join, fields, atoi, parse_uint32}
use podlaz.Recovery.Model.{managed_interface}
use podlaz.Recovery.Owners.{
  owner_tun_address, owner_route, owner_policy_rule, owner_dns, owner_firewall,
  default_tun_ipv4_cidr, owned_rollback_metadata, normalized_rollback_owner,
}
use podlaz.Recovery.Counters.{
  Counter, count, keys, size, counter_equal, counter_subset, compact_reasons,
}
use podlaz.Recovery.Keys.{
  joined, route_rollback_target, as_rollback, route_as_rollback, is_desired_route,
  rollback_network_step_counter, applied_network_step_counter,
}
use podlaz.Recovery.Raw.{desired_nftables, raw_transaction_network_ownership_reasons}

abbrev pub is_state : Transaction → TransactionState → Bool
is_state tx s = same TransactionState-discrete tx.state s

unfoldable pub route_rollback_key : RouteRollback → Str
route_rollback_key r = joined (trim_space r.table) (
    joined (trim_space r.cidr) (
      joined (trim_space r.via)
        (joined (trim_space r.dev) (normalized_rollback_owner r.owner owner_route))))

unfoldable pub desired_route_counter : List RoutePlan → Counter
desired_route_counter rs =
    map (λ (r : RoutePlan). route_rollback_key (route_as_rollback r)) (keep is_desired_route rs)

unfoldable pub rollback_route_counter : List RouteRollback → Counter
rollback_route_counter rs = map route_rollback_key rs

-- The full keys of the desired routes to one short target.
unfoldable pub desired_by_short : List RoutePlan → Str → Counter
desired_by_short rs short =
    desired_route_counter
      (keep (λ r. str_eq (route_rollback_target (route_as_rollback r)) short) rs)

short_reason : Str → Counter → ℕ → List Str
short_reason short fulls n =
    if not (size fulls == 1)
    then (text "route desired plan has ambiguous full tuples for applied route target " ++ short)
      ∷ []
    else if not (length fulls == n)
    then (text "route desired plan cardinality does not match applied route target " ++ short) ∷ []
    else []

short_reasons : List RoutePlan → Counter → List Str → List Str
short_reasons desired shorts [] = []
short_reasons desired shorts (s ∷ ss) =
    short_reason s (desired_by_short desired s) (count s shorts) ++ short_reasons desired shorts ss

-- `ambiguousDesiredRouteShortTargetMismatches`, whose reasons Go lists in any order.
unfoldable pub ambiguous_desired_routes : List RoutePlan → List RouteRollback → List Str
unfolding short_reason short_reasons desired_by_short desired_route_counter
ambiguous_desired_routes desired rollback =
    let shorts =
      map route_rollback_target
        (keep (λ r. owned_rollback_metadata r.owner owner_route) rollback) in
    short_reasons desired shorts (keys shorts)

unfoldable pub policy_rule_rollback_key : PolicyRuleRollback → Str
policy_rule_rollback_key r = joined (itoa r.priority) (
    joined (trim_space r.from) (
      joined (trim_space r.to) (
        joined (trim_space r.table)
          (joined (trim_space r.mark) (normalized_rollback_owner r.owner owner_policy_rule)))))

abbrev pub desired_rule : ℕ → Str → Str → Str → Str → Str → PolicyRuleRollback
desired_rule priority from to mark table owner = record {
  priority = priority;
  from = from;
  to = to;
  table = table;
  mark = mark;
  owner = owner;
}

-- The selector of a rule whose priority is read.
unfoldable pub with_selector : Str → Option ℕ → Str → Str → Str → Option PolicyRuleRollback
with_selector owner none what value table = none
with_selector owner (some p) what value table =
    if str_eq what (text "from")
    then some (desired_rule p value [] [] table owner)
    else if str_eq what (text "to")
    then some (desired_rule p [] value [] table owner)
    else if str_eq what (text "fwmark") && is_some (parse_uint32 value)
    then some (desired_rule p [] [] value table owner)
    else none

unfoldable pub rule_of_fields : Str → List Str → Option PolicyRuleRollback
rule_of_fields owner (p ∷ n ∷ what ∷ value ∷ l ∷ table ∷ []) =
    if str_eq p (text "priority") && str_eq l (text "lookup")
    then with_selector owner (atoi n) what value table
    else none
rule_of_fields _ _ = none

unfoldable pub desired_policy_rule_rollback : PlannedStep → Option PolicyRuleRollback
unfolding with_selector rule_of_fields
desired_policy_rule_rollback s =
    if str_eq s.kind (text "policy-rule") && owned_rollback_metadata s.owner owner_policy_rule
    then rule_of_fields s.owner (fields s.target)
    else none

add_desired_rule : Option PolicyRuleRollback → Counter → Counter
add_desired_rule none c = c
add_desired_rule (some r) c = policy_rule_rollback_key r ∷ c

unfoldable pub desired_policy_rule_counter : List PlannedStep → Counter
unfolding add_desired_rule
desired_policy_rule_counter [] = []
desired_policy_rule_counter (s ∷ ss) =
    add_desired_rule (desired_policy_rule_rollback s) (desired_policy_rule_counter ss)

dns_key : Str → Str → List Str → Str → Str
dns_key backend link domains owner = joined (trim_space backend) (
    joined (trim_space link)
      (joined (join (text ",") domains) (normalized_rollback_owner owner owner_dns)))

unfoldable pub dns_rollback_key : DnsRollback → Str
unfolding dns_key
dns_rollback_key e = dns_key e.backend e.link e.search_domains e.owner

unfoldable pub is_desired_dns : DnsPlan → Bool
is_desired_dns d = owned_rollback_metadata d.owner owner_dns && not (is_empty (trim_space d.link))

unfoldable pub desired_dns_counter : DnsPlan → Counter
unfolding dns_key
desired_dns_counter d =
    if is_desired_dns d then dns_key d.backend d.link d.search_domains d.owner ∷ [] else []

unfoldable pub nft_rollback_key : NftablesRollback → Str
nft_rollback_key e =
    joined (trim_space e.family)
      (joined (trim_space e.table) (normalized_rollback_owner e.owner owner_firewall))

unfoldable pub is_desired_nft : NftPlan → Bool
is_desired_nft n =
    owned_rollback_metadata n.owner owner_firewall
    && not (is_empty (trim_space n.family))
    && not (is_empty (trim_space n.table))

unfoldable pub desired_nft_counter : DesiredPlan → Counter
desired_nft_counter d =
    if is_desired_nft d.nft then nft_rollback_key (desired_nftables d) ∷ [] else []

-- The reasons about one kind of resource: what is rolled back must be an exact part of what was desired.
subset_reasons : Str → Counter → Counter → List Str → List Str
subset_reasons what rollback desired more =
    if is_empty rollback
    then []
    else if is_empty desired
    then (what ++ (text " rollback requires exact desired " ++ (what ++ text " tuple metadata")))
      ∷ []
    else if counter_subset rollback desired
    then more
    else (what
        ++ (text " rollback multiset is not an exact subset of desired "
            ++ (what ++ text " multiset")))
      ∷ more

unfoldable pub rollback_desired_subset_mismatches : DesiredPlan → RollbackMetadata → List Str
unfolding subset_reasons ambiguous_desired_routes
rollback_desired_subset_mismatches d m =
    subset_reasons (text "route") (rollback_route_counter m.routes) (desired_route_counter d.routes)
      (ambiguous_desired_routes d.routes m.routes)
    ++ (subset_reasons (text "policy-rule") (map policy_rule_rollback_key m.policy_rules)
          (desired_policy_rule_counter d.steps) []
        ++ (subset_reasons (text "DNS") (map dns_rollback_key m.dns) (desired_dns_counter d.dns) []
            ++ subset_reasons (text "nftables") (map nft_rollback_key m.nftables)
                (desired_nft_counter d) []))

-- In the state `applying` and in every other one, the counters must be equal.
unfoldable pub applied_rollback_mismatches : Counter → Counter → List Str
applied_rollback_mismatches applied rollback =
    if counter_equal applied rollback
    then []
    else text "applied network ownership multiset does not match rollback network multiset" ∷ []

unfoldable pub ownership_reasons_from :
    Transaction → RollbackMetadata → Counter → Counter → List Str → List Str
ownership_reasons_from tx m rollback applied reasons =
    if is_empty rollback && is_empty applied
    then compact_reasons reasons
    else if is_state tx planned
    then compact_reasons
        (reasons ++ (text "planned transaction cannot authorize network cleanup" ∷ []))
    else compact_reasons (
        reasons
        ++ (rollback_desired_subset_mismatches tx.desired_plan m
            ++ applied_rollback_mismatches applied rollback))

unfoldable pub rollback_ownership_consistency_reasons : Transaction → RollbackMetadata → List Str
rollback_ownership_consistency_reasons tx m =
    ownership_reasons_from tx m (rollback_network_step_counter m)
      (applied_network_step_counter tx.applied_steps) (raw_transaction_network_ownership_reasons tx)

-- The entry that stands for the reasons: no process, of podlaz.
abbrev pub reasons_process : List Str → ChildProcessRollback
reasons_process reasons = record {
  pid = 0;
  pid_file = [];
  label = text "ownership-consistency: " ++ join (text "; ") (compact_reasons reasons);
  config_ref = [];
  start_time = [];
  owner = transaction_owner;
}

unfoldable pub mutation_free_ambiguous_rollback : RollbackMetadata → List Str → RollbackMetadata
mutation_free_ambiguous_rollback m reasons = record {
  tun = [];
  tun_addresses = [];
  routes = [];
  policy_rules = [];
  dns = [];
  nftables = [];
  generated_configs = m.generated_configs;
  child_processes = m.child_processes ++ (reasons_process reasons ∷ []);
}

-- The address that may have been assigned before its record was written.
unfoldable pub is_applying_address : TunAddressDesiredState → Bool
is_applying_address a =
    str_eq a.interface_name managed_interface
    && ltb 0 a.link_index
    && str_eq a.link_kind (text "tun")
    && a.appeared_after_core
    && str_eq (trim_space a.cidr) default_tun_ipv4_cidr
    && owned_rollback_metadata a.owner owner_tun_address

-- The metadata, with that address when none is recorded: `candidate` is the test of the address.
unfoldable pub with_applying_address :
    (TunAddressDesiredState → Bool) → Transaction → RollbackMetadata
with_applying_address candidate tx =
    if is_empty tx.rollback.tun_addresses
      && is_state tx applying
      && candidate tx.desired_plan.tun_address
    then record tx.rollback { tun_addresses = as_rollback tx.desired_plan.tun_address ∷ [] }
    else tx.rollback

unfoldable pub project_metadata :
    (TunAddressDesiredState → Bool) → List Str → Transaction → RollbackMetadata
project_metadata candidate reasons tx =
    if is_empty reasons
    then with_applying_address candidate tx
    else mutation_free_ambiguous_rollback tx.rollback reasons

-- `recoveryRollbackMetadata`.
unfoldable pub recovery_rollback_metadata : Transaction → RollbackMetadata
recovery_rollback_metadata tx =
    project_metadata is_applying_address (rollback_ownership_consistency_reasons tx tx.rollback) tx

unfoldable pub is_desired_tun_address : TunAddressDesiredState → Bool
is_desired_tun_address a =
    str_eq a.owner owner_tun_address
    && str_eq a.interface_name managed_interface
    && not (is_empty (trim_space a.cidr))

unfoldable pub is_bound_applying_address : TunAddressDesiredState → Bool
is_bound_applying_address a =
    is_desired_tun_address a
    && ltb 0 a.link_index
    && str_eq a.link_kind (text "tun")
    && a.appeared_after_core
    && str_eq (trim_space a.cidr) default_tun_ipv4_cidr

is_desired_rule_step : PlannedStep → Bool
is_desired_rule_step s =
    str_eq s.kind (text "policy-rule") && owned_rollback_metadata s.owner owner_policy_rule

-- `applyingDesiredOwnershipGaps`, with the test of the address.
unfoldable pub ownership_gaps_by : (TunAddressDesiredState → Bool) → Transaction → List Str
unfolding is_desired_rule_step
ownership_gaps_by candidate tx =
    let d = tx.desired_plan in
    let m = tx.rollback in
    if not (is_state tx applying)
    then []
    else (if is_desired_tun_address d.tun_address
          && is_empty m.tun_addresses
          && not (candidate d.tun_address)
        then text "TUN address" ∷ []
        else [])
      ++ ((if ltb (length m.routes) (length (keep is_desired_route d.routes))
            then text "routes" ∷ []
            else [])
          ++ ((if ltb (length m.policy_rules) (length (keep is_desired_rule_step d.steps))
                then text "policy rules" ∷ []
                else [])
              ++ ((if is_desired_dns d.dns && is_empty m.dns then text "DNS" ∷ [] else [])
                  ++ (if is_desired_nft d.nft && is_empty m.nftables
                      then text "nftables" ∷ []
                      else []))))

unfoldable pub applying_desired_ownership_gaps : Transaction → List Str
applying_desired_ownership_gaps tx = ownership_gaps_by is_bound_applying_address tx
