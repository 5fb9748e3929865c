-- ===== src/Recovery/Raw.antt =====
-- The validation of the entries that a transaction recorded, before they are counted
-- (rollback_raw_validation.go).
use podlaz.Common.{
  ℕ, suc, Bool, false, not, ◌&&◌, ◌||◌, ◌==◌, ltb, Option, none, some, List, [], ◌∷◌, ◌++◌, Str,
  text, str_eq, is_empty, is_some, trim_space, if◌then◌else◌, parse_ip4, all, keep, length,
}
use podlaz.Transaction.Model.{
  Transaction, DesiredPlan, RoutePlan, PlannedStep, AppliedStep, RollbackMetadata, TunRollback,
  TunAddressRollback, RouteRollback, PolicyRuleRollback, DnsRollback, NftablesRollback,
  transaction_owner,
}
use podlaz.Recovery.Text.{itoa, has_prefix, is_host_prefix, parse_uint32}
use podlaz.Recovery.Model.{managed_interface}
use podlaz.Recovery.Owners.{
  owner_tun_device, owner_tun_address, owner_route, owner_policy_rule, owner_dns, owner_firewall,
  main_routing_table, owned_rollback_metadata, is_managed_nft_target, is_managed_table,
  is_allocated_tun_ipv4_cidr, is_allocated_tun_routing_table, is_systemd_resolved_backend,
}
use podlaz.Recovery.Counters.{Counter, count, keys, compact_reasons}
use podlaz.Recovery.Keys.{
  NetworkKind, tun_device, tun_address, route, policy_rule, dns, nftables, network_kind, owner_of,
  step_key, tun_address_rollback_target, route_rollback_target, nft_rollback_target, as_rollback,
  route_as_rollback, is_desired_route, rollback_network_step_counter,
}

unfoldable pub is_raw_tun : TunRollback → Bool
is_raw_tun e =
    owned_rollback_metadata e.owner owner_tun_device
    && str_eq (trim_space e.interface_name) managed_interface

unfoldable pub is_raw_tun_address : TunAddressRollback → Bool
is_raw_tun_address e =
    owned_rollback_metadata e.owner owner_tun_address
    && str_eq (trim_space e.interface_name) managed_interface
    && str_eq (trim_space e.family) (text "ipv4")
    && str_eq (trim_space e.scope) (text "global")
    && is_allocated_tun_ipv4_cidr e.cidr
    && ltb 0 e.link_index
    && str_eq (trim_space e.link_kind) (text "tun")
    && e.appeared_after_core

-- `safeMainServerBypassRouteShape`.
unfoldable pub is_safe_main_route_shape : RouteRollback → Bool
is_safe_main_route_shape r =
    str_eq (trim_space r.table) main_routing_table
    && not (is_empty (trim_space r.dev))
    && is_host_prefix (trim_space r.cidr)
    && (is_empty (trim_space r.via) || is_some (parse_ip4 (trim_space r.via)))

unfoldable pub is_raw_route : RouteRollback → Bool
unfolding is_safe_main_route_shape
is_raw_route r =
    owned_rollback_metadata r.owner owner_route
    && not (is_empty (trim_space r.cidr))
    && not (is_empty (trim_space r.table))
    && (if str_eq (trim_space r.table) main_routing_table
        then is_safe_main_route_shape r
        else (is_managed_table r.table || is_allocated_tun_routing_table r.table)
          && (is_empty (trim_space r.dev) || str_eq (trim_space r.dev) managed_interface))

is_mark : Option ℕ → Bool
is_mark none = false
is_mark (some n) = ltb 0 n

-- `safeMainServerBypassPolicyRuleShape`.
unfoldable pub is_safe_main_rule_shape : PolicyRuleRollback → Bool
unfolding is_mark
is_safe_main_rule_shape r =
    str_eq (trim_space r.table) main_routing_table
    && is_empty (trim_space r.from)
    && (if is_empty (trim_space r.mark)
        then is_host_prefix (trim_space r.to)
        else is_empty (trim_space r.to) && is_mark (parse_uint32 (trim_space r.mark)))

unfoldable pub is_raw_policy_rule : PolicyRuleRollback → Bool
unfolding is_safe_main_rule_shape
is_raw_policy_rule r =
    owned_rollback_metadata r.owner owner_policy_rule
    && ltb 0 r.priority
    && ltb r.priority 32766
    && not (is_empty (trim_space r.table))
    && (if str_eq (trim_space r.table) main_routing_table
        then is_safe_main_rule_shape r
        else is_managed_table r.table || is_allocated_tun_routing_table r.table)

unfoldable pub is_raw_dns : DnsRollback → Bool
is_raw_dns e =
    owned_rollback_metadata e.owner owner_dns
    && str_eq (trim_space e.link) managed_interface
    && is_systemd_resolved_backend e.backend

unfoldable pub is_raw_nftables : NftablesRollback → Bool
is_raw_nftables e =
    owned_rollback_metadata e.owner owner_firewall && is_managed_nft_target e.family e.table

-- One reason for each entry that the test refuses, with its number.
refused : {A : Type 0} → (A → Bool) → Str → ℕ → List A → List Str
refused p what i [] = []
refused p what i (x ∷ xs) =
    let rest = refused p what (suc i) xs in
    if p x
    then rest
    else (text "raw "
        ++ (what ++ (text " entry " ++ (itoa i ++ text " is unsupported or incomplete"))))
      ∷ rest

unfoldable pub raw_rollback_metadata_reasons : RollbackMetadata → List Str
unfolding refused is_raw_tun is_raw_tun_address is_raw_route is_raw_policy_rule is_raw_dns
    is_raw_nftables
raw_rollback_metadata_reasons m = compact_reasons (
    refused is_raw_tun (text "TUN rollback") 0 m.tun
    ++ (refused is_raw_tun_address (text "TUN address rollback") 0 m.tun_addresses
        ++ (refused is_raw_route (text "route rollback") 0 m.routes
            ++ (refused is_raw_policy_rule (text "policy-rule rollback") 0 m.policy_rules
                ++ (refused is_raw_dns (text "DNS rollback") 0 m.dns
                    ++ refused is_raw_nftables (text "nftables rollback") 0 m.nftables)))))

unfoldable pub looks_network_owned : AppliedStep → Bool
looks_network_owned s =
    is_some (network_kind (trim_space s.kind))
    || str_eq (trim_space s.owner) transaction_owner
    || has_prefix (trim_space s.owner) (text "podlaz:")

route_matches : Str → RoutePlan → Bool
route_matches target r =
    is_desired_route r && str_eq target (route_rollback_target (route_as_rollback r))

step_matches : Str → PlannedStep → Bool
step_matches target s =
    str_eq s.kind (text "policy-rule")
    && str_eq (trim_space s.target) target
    && owned_rollback_metadata s.owner owner_policy_rule

abbrev pub desired_nftables : DesiredPlan → NftablesRollback
desired_nftables d = record {
  family = d.nft.family;
  table = d.nft.table;
  chain = [];
  owner = d.nft.owner;
}

-- `rawAppliedStepTargetHasDesiredMapping`, by the kind as it is written.
has_desired_mapping : DesiredPlan → AppliedStep → Option NetworkKind → Bool
has_desired_mapping d s none = false
has_desired_mapping d s (some tun_device) =
    str_eq (trim_space s.target) managed_interface
    && owned_rollback_metadata s.owner owner_tun_device
has_desired_mapping d s (some tun_address) =
    str_eq (trim_space s.target) (tun_address_rollback_target (as_rollback d.tun_address))
    && is_raw_tun_address (as_rollback d.tun_address)
has_desired_mapping d s (some route) =
    length (keep (route_matches (trim_space s.target)) d.routes) == 1
has_desired_mapping d s (some policy_rule) =
    length (keep (step_matches (trim_space s.target)) d.steps) == 1
has_desired_mapping d s (some dns) =
    str_eq (trim_space s.target) (trim_space d.dns.link)
    && owned_rollback_metadata d.dns.owner owner_dns
has_desired_mapping d s (some nftables) =
    str_eq (trim_space s.target) (nft_rollback_target (desired_nftables d))
    && is_raw_nftables (desired_nftables d)

step_reason : ℕ → Str → Str
step_reason i why = text "raw applied network step " ++ (itoa i ++ why)

-- One step of the loop: its reasons, and the keys that it counts.
raw_step : DesiredPlan → ℕ → AppliedStep → Option NetworkKind → List Str × Counter
raw_step d i s none = (
  step_reason i (text " has unknown kind " ++ (b'"' ∷ (trim_space s.kind ++ (b'"' ∷ [])))) ∷ [],
  [],
)
raw_step d i s (some k) =
    if not (owned_rollback_metadata s.owner (owner_of k))
    then (step_reason i (text " has unsupported owner") ∷ [], [])
    else if is_empty (trim_space s.target)
    then (step_reason i (text " has empty target") ∷ [], [])
    else (
      (if has_desired_mapping d s (network_kind s.kind)
          then []
          else step_reason i (text " has no unique desired full-tuple mapping") ∷ []),
      step_key s (some k) ∷ [],
    )

raw_steps : DesiredPlan → ℕ → List AppliedStep → List Str × Counter
raw_steps d i [] = ([], [])
raw_steps d i (s ∷ ss) =
    let (rs, c) = raw_steps d (suc i) ss in
    let (r, k) = raw_step d i s (network_kind (trim_space s.kind)) in
    if looks_network_owned s then (r ++ rs, k ++ c) else (rs, c)

unfoldable pub raw_applied_network_step_reasons : Transaction → List Str
unfolding raw_steps raw_step step_reason has_desired_mapping step_matches route_matches
    looks_network_owned step_key network_kind keep count keys is_desired_route
raw_applied_network_step_reasons tx =
    let (rs, c) = raw_steps tx.desired_plan 0 tx.applied_steps in
    let rollback = rollback_network_step_counter tx.rollback in
    compact_reasons (
      if all (λ k. count k rollback == count k c) (keys c)
      then rs
      else rs
        ++ (text
              "raw applied network ownership multiset is not exactly represented in rollback metadata"
            ∷ []))

unfoldable pub raw_transaction_network_ownership_reasons : Transaction → List Str
raw_transaction_network_ownership_reasons tx =
    compact_reasons
      (raw_rollback_metadata_reasons tx.rollback ++ raw_applied_network_step_reasons tx)
