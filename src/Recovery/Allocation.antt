-- ===== src/Recovery/Allocation.antt =====
-- The resources that a collision-aware session recorded, and the entries that match them exactly
-- (network_session_cleanup_executor.go).
use podlaz.Common.{
  ℕ, ◌+◌, Bool, true, false, not, ◌&&◌, ◌||◌, ◌==◌, leb, ltb, Option, none, some, List, [], ◌∷◌,
  ◌++◌, Str, text, str_eq, is_empty, is_some, trim_space, cut_prefix, if◌then◌else◌, parse_ip4,
  keep,
}
use podlaz.Transaction.Model.{
  Transaction, RoutePlan, PlannedStep, TunAddressDesiredState, RouteRollback, PolicyRuleRollback,
  TunAddressRollback, AppliedStep, RollbackMetadata,
}
use podlaz.Recovery.Text.{itoa, join, fields, atoi, parse_uint32, is_host_prefix}
use podlaz.Recovery.Model.{managed_interface}
use podlaz.Recovery.Owners.{
  owner_tun_address, owner_route, owner_policy_rule, main_routing_table, owned_rollback_metadata,
  is_allocated_tun_ipv4_cidr, is_allocated_tun_routing_table,
}
use podlaz.Recovery.Metadata.{
  project_metadata, rollback_ownership_consistency_reasons, is_desired_tun_address,
  ownership_gaps_by,
}
use podlaz.Recovery.Deletes.{tun_address_refusal}
use podlaz.Recovery.Links.{LinkIdentity, only, identity_of, exact_creation_identity}

-- `persistedNetworkSessionAllocation`.
pub record Allocation : Type 0 where
  pub tun_ipv4_cidr : Str
  pub routing_table : Str
  pub server_rule_priority : ℕ
  pub tunnel_rule_priority : ℕ
  pub egress_mark : ℕ

unfoldable pub is_default_route : Str → Bool
is_default_route cidr = str_eq cidr (text "default") || str_eq cidr (text "0.0.0.0/0")

is_session_route : RoutePlan → Bool
is_session_route r =
    str_eq r.kind (text "route")
    && str_eq r.operation (text "add")
    && owned_rollback_metadata r.owner owner_route
    && str_eq r.dev managed_interface
    && is_default_route r.cidr
    && is_allocated_tun_routing_table r.table

-- A rule as the plan writes it.
pub record RuleTarget : Type 0 where
  pub priority : ℕ
  pub selector : Str
  pub table : Str

-- The words up to `lookup`, and those behind it.
before_lookup : List Str → Option (List Str × List Str)
before_lookup [] = none
before_lookup (w ∷ ws) = elim (str_eq w (text "lookup")) [
  | true ↦ some ([], ws)
  | false ↦ elim (before_lookup ws) [
    | none ↦ none
    | some (selector, rest) ↦ some (w ∷ selector, rest)
  ]
]

target_of : Option ℕ → Option (List Str × List Str) → Option RuleTarget
target_of (some p) (some (w ∷ ws, table ∷ [])) =
    if p == 0 || leb 32766 p
    then none
    else some (record { priority = p; selector = join (text " ") (w ∷ ws); table = table })
target_of _ _ = none

target_of_words : List Str → Option RuleTarget
target_of_words (p ∷ n ∷ ws) =
    if str_eq p (text "priority") then target_of (atoi n) (before_lookup ws) else none
target_of_words _ = none

-- `parseNetworkSessionPolicyRuleTarget`.
unfoldable pub parse_policy_rule_target : Str → Option RuleTarget
unfolding before_lookup target_of target_of_words
parse_policy_rule_target target = target_of_words (fields (trim_space target))

-- What the loop over the steps of the plan counts.
pub record Matches : Type 0 where
  pub server_matches : ℕ
  pub tunnel_matches : ℕ
  pub server_priority : ℕ
  pub tunnel_priority : ℕ

is_mark_value : ℕ → Option ℕ → Bool
is_mark_value mark none = false
is_mark_value mark (some n) = n == mark

or_none : Bool → Matches → Option Matches
or_none true m = some m
or_none false m = none

-- One rule of the plan, with the text behind `to ` and `fwmark `.
match_rule : Str → ℕ → RuleTarget → Option Str → Option Str → Matches → Option Matches
match_rule table mark r to fwmark m =
    let server = record m { server_matches = 1 + m.server_matches; server_priority = r.priority } in
    let tunnel = record m { tunnel_matches = 1 + m.tunnel_matches; tunnel_priority = r.priority } in
    if str_eq r.table main_routing_table && is_some to && mark == 0
    then or_none (elim to [ none ↦ false | some s ↦ is_host_prefix s ]) server
    else if str_eq r.table main_routing_table && is_some fwmark && not (mark == 0)
    then or_none
        (elim fwmark [ none ↦ false | some s ↦ is_mark_value mark (parse_uint32 (trim_space s)) ])
        server
    else if str_eq r.table table && str_eq r.selector (text "from all")
    then some tunnel
    else some m

match_target : Str → ℕ → Option RuleTarget → Matches → Option Matches
match_target table mark none m = none
match_target table mark (some r) m =
    match_rule table mark r (cut_prefix (text "to ") r.selector)
      (cut_prefix (text "fwmark ") r.selector) m

match_steps : Str → ℕ → List PlannedStep → Matches → Option Matches
match_steps table mark [] m = some m
match_steps table mark (s ∷ ss) m =
    elim (str_eq s.kind (text "policy-rule") && owned_rollback_metadata s.owner owner_policy_rule) [
      | false ↦ match_steps table mark ss m
      | true ↦ elim (match_target table mark (parse_policy_rule_target s.target) m) [
        | none ↦ none
        | some m' ↦ match_steps table mark ss m'
      ]
    ]

is_exact_match : Matches → Bool
is_exact_match m =
    m.server_matches == 1
    && m.tunnel_matches == 1
    && ltb 0 m.server_priority
    && ltb m.server_priority m.tunnel_priority

allocation_of : Str → Str → ℕ → Option Matches → Option Allocation
allocation_of cidr table mark none = none
allocation_of cidr table mark (some m) =
    if is_exact_match m
    then some (record {
      tun_ipv4_cidr = cidr;
      routing_table = table;
      server_rule_priority = m.server_priority;
      tunnel_rule_priority = m.tunnel_priority;
      egress_mark = mark;
    })
    else none

no_matches : Matches
no_matches = record {
  server_matches = 0;
  tunnel_matches = 0;
  server_priority = 0;
  tunnel_priority = 0;
}

allocation_with_route : Transaction → Option RoutePlan → Option Allocation
allocation_with_route tx none = none
allocation_with_route tx (some r) =
    let d = tx.desired_plan in
    allocation_of (trim_space d.tun_address.cidr) (trim_space r.table) d.egress_mark
      (match_steps (trim_space r.table) d.egress_mark d.steps no_matches)

unfoldable pub exact_persisted_allocation : Transaction → Option Allocation
unfolding is_session_route is_mark_value or_none match_rule match_target match_steps is_exact_match
    allocation_of no_matches allocation_with_route keep
exact_persisted_allocation tx =
    let a = tx.desired_plan.tun_address in
    if str_eq a.interface_name managed_interface
      && owned_rollback_metadata a.owner owner_tun_address
      && is_allocated_tun_ipv4_cidr a.cidr
    then allocation_with_route tx (only (keep is_session_route tx.desired_plan.routes))
    else none

module _ (a : Allocation) where
  unfoldable pub is_session_address : TunAddressDesiredState → Bool
  is_session_address d =
      is_desired_tun_address d
      && ltb 0 d.link_index
      && str_eq d.link_kind (text "tun")
      && d.appeared_after_core
      && str_eq (trim_space d.cidr) a.tun_ipv4_cidr
      && is_allocated_tun_ipv4_cidr d.cidr

  -- `networkSessionRecoveryRollbackMetadata`.
  unfoldable pub session_rollback_metadata : Transaction → RollbackMetadata
  session_rollback_metadata tx =
      project_metadata is_session_address (rollback_ownership_consistency_reasons tx tx.rollback) tx

  unfoldable pub session_ownership_gaps : Transaction → List Str
  session_ownership_gaps tx = ownership_gaps_by is_session_address tx

  mark_args : PolicyRuleRollback → Option ℕ → Option (List Str)
  mark_args r none = none
  mark_args r (some n) =
      if n == a.egress_mark
      then some (
          text "-4"
          ∷ text "rule"
          ∷ text "del"
          ∷ text "priority"
          ∷ itoa r.priority
          ∷ text "fwmark"
          ∷ itoa n
          ∷ text "lookup"
          ∷ main_routing_table
          ∷ [])
      else none

  to_args : PolicyRuleRollback → Option (List Str)
  to_args r =
      if is_host_prefix (trim_space r.to)
      then some (
          text "-4"
          ∷ text "rule"
          ∷ text "del"
          ∷ text "priority"
          ∷ itoa r.priority
          ∷ text "to"
          ∷ trim_space r.to
          ∷ text "lookup"
          ∷ main_routing_table
          ∷ [])
      else none

  -- `exactNetworkSessionPolicyRuleDeleteArgs`.
  unfoldable pub session_rule_delete_args : PolicyRuleRollback → Option (List Str)
  unfolding mark_args to_args
  session_rule_delete_args r =
      if r.priority == a.server_rule_priority
        && str_eq (trim_space r.table) main_routing_table
        && is_empty (trim_space r.from)
      then (if not (a.egress_mark == 0)
          then if is_empty (trim_space r.to)
            then mark_args r (parse_uint32 (trim_space r.mark))
            else none
          else if is_empty (trim_space r.mark)
          then to_args r
          else none)
      else if r.priority == a.tunnel_rule_priority
          && str_eq (trim_space r.table) a.routing_table
          && str_eq (trim_space r.from) (text "all")
          && is_empty (trim_space r.to)
          && is_empty (trim_space r.mark)
      then some (
          text "-4"
          ∷ text "rule"
          ∷ text "del"
          ∷ text "priority"
          ∷ itoa r.priority
          ∷ text "from"
          ∷ text "all"
          ∷ text "lookup"
          ∷ a.routing_table
          ∷ [])
      else none

  unfoldable pub is_session_link_route : RouteRollback → Bool
  is_session_link_route r =
      str_eq (trim_space r.table) a.routing_table && str_eq (trim_space r.dev) managed_interface

  via_args : RouteRollback → List Str
  via_args r = if is_empty (trim_space r.via) then [] else text "via" ∷ trim_space r.via ∷ []

  -- `exactNetworkSessionRouteDeleteArgs`.
  unfoldable pub session_route_delete_args : RouteRollback → Option (List Str)
  unfolding via_args
  session_route_delete_args r =
      if is_session_link_route r
        && is_default_route (trim_space r.cidr)
        && is_empty (trim_space r.via)
      then some (
          text "-4"
          ∷ text "route"
          ∷ text "del"
          ∷ trim_space r.cidr
          ∷ text "dev"
          ∷ managed_interface
          ∷ text "table"
          ∷ a.routing_table
          ∷ [])
      else if str_eq (trim_space r.table) main_routing_table
          && not (is_empty (trim_space r.dev))
          && is_host_prefix (trim_space r.cidr)
          && (is_empty (trim_space r.via) || is_some (parse_ip4 (trim_space r.via)))
      then some (
          text "-4"
          ∷ text "route"
          ∷ text "del"
          ∷ trim_space r.cidr
          ∷ (via_args r
              ++ (text "dev" ∷ trim_space r.dev ∷ text "table" ∷ main_routing_table ∷ [])))
      else none

-- `exactNetworkSessionRollbackLinkIdentity`.
is_session_address_entry : TunAddressRollback → Bool
is_session_address_entry e = not (is_some (tun_address_refusal e))

unfoldable pub session_link_identity : RollbackMetadata → List AppliedStep → Option LinkIdentity
unfolding is_session_address_entry keep
session_link_identity m applied =
    identity_of (only (keep is_session_address_entry m.tun_addresses))
      (exact_creation_identity m.tun applied)
