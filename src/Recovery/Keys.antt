-- ===== src/Recovery/Keys.antt =====
-- The keys by which a transaction's entries are counted (desired_plan_rollback.go).
use podlaz.Common.{
  ◌&&◌, Bool, false, not, Option, none, some, List, [], ◌∷◌, ◌++◌, Str, text, str_eq, is_empty,
  trim_space, if◌then◌else◌,
}
use podlaz.Transaction.Model.{
  RoutePlan, AppliedStep, TunAddressDesiredState, RollbackMetadata, TunAddressRollback,
  RouteRollback, PolicyRuleRollback, NftablesRollback,
}
use podlaz.Recovery.Text.{itoa}
use podlaz.Recovery.Owners.{
  owner_tun_device, owner_tun_address, owner_route, owner_policy_rule, owner_dns, owner_firewall,
  owned_rollback_metadata, normalized_rollback_owner,
}
use podlaz.Recovery.Counters.{Counter}

-- The kinds of the steps of the network.
pub data NetworkKind : Type 0 where
  tun_device tun_address route policy_rule dns nftables : NetworkKind

unfoldable pub network_kind : Str → Option NetworkKind
network_kind k =
    if str_eq k (text "tun-device")
    then some tun_device
    else if str_eq k (text "tun-address")
    then some tun_address
    else if str_eq k (text "route")
    then some route
    else if str_eq k (text "policy-rule")
    then some policy_rule
    else if str_eq k (text "dns")
    then some dns
    else if str_eq k (text "nftables")
    then some nftables
    else none

abbrev pub owner_of : NetworkKind → Str
owner_of tun_device = owner_tun_device
owner_of tun_address = owner_tun_address
owner_of route = owner_route
owner_of policy_rule = owner_policy_rule
owner_of dns = owner_dns
owner_of nftables = owner_firewall

abbrev pub kind_text : NetworkKind → Str
kind_text tun_device = text "tun-device"
kind_text tun_address = text "tun-address"
kind_text route = text "route"
kind_text policy_rule = text "policy-rule"
kind_text dns = text "dns"
kind_text nftables = text "nftables"

-- Keys join their parts by a NUL.
unfoldable pub joined : Str → Str → Str
joined a b = a ++ (0 ∷ b)

unfoldable pub applied_step_key : Str → Str → Str → Str
unfolding joined
applied_step_key kind target owner =
    joined (trim_space kind) (joined (trim_space target) (trim_space owner))

unfoldable pub tun_address_rollback_target : TunAddressRollback → Str
tun_address_rollback_target a =
    trim_space a.interface_name
    ++ (text "@ifindex=" ++ (itoa a.link_index ++ (text ":" ++ trim_space a.cidr)))

unfoldable pub route_rollback_target : RouteRollback → Str
route_rollback_target r = trim_space r.table ++ (text " " ++ trim_space r.cidr)

unfoldable pub rule_selector : PolicyRuleRollback → Str
rule_selector r =
    if not (is_empty (trim_space r.from))
    then text "from " ++ trim_space r.from
    else if not (is_empty (trim_space r.to))
    then text "to " ++ trim_space r.to
    else if not (is_empty (trim_space r.mark))
    then text "fwmark " ++ trim_space r.mark
    else []

unfoldable pub policy_rule_rollback_target : PolicyRuleRollback → Str
unfolding rule_selector
policy_rule_rollback_target r =
    text "priority "
    ++ (itoa r.priority
        ++ (text " " ++ (rule_selector r ++ (text " lookup " ++ trim_space r.table))))

unfoldable pub nft_rollback_target : NftablesRollback → Str
nft_rollback_target n = trim_space n.family ++ (text " " ++ trim_space n.table)

-- The keys of the owned entries of one kind, counted in front of others.
add_owned : {A : Type 0} → NetworkKind → (A → Str) → (A → Str) → List A → Counter → Counter
add_owned k owner target [] c = c
add_owned k owner target (x ∷ xs) c =
    let rest = add_owned k owner target xs c in
    if owned_rollback_metadata (owner x) (owner_of k)
    then applied_step_key (kind_text k) (target x) (owner_of k) ∷ rest
    else rest

unfoldable pub rollback_network_step_counter : RollbackMetadata → Counter
unfolding add_owned
rollback_network_step_counter m =
    add_owned tun_device (λ x. x.owner) (λ x. trim_space x.interface_name) m.tun
      (add_owned tun_address (λ x. x.owner) tun_address_rollback_target m.tun_addresses
        (add_owned route (λ x. x.owner) route_rollback_target m.routes
          (add_owned policy_rule (λ x. x.owner) policy_rule_rollback_target m.policy_rules
            (add_owned dns (λ x. x.owner) (λ x. trim_space x.link) m.dns
              (add_owned nftables (λ x. x.owner) nft_rollback_target m.nftables [])))))

unfoldable pub is_owned_step : AppliedStep → Option NetworkKind → Bool
is_owned_step s none = false
is_owned_step s (some k) = owned_rollback_metadata s.owner (owner_of k)

-- The key of a step whose kind is known, with the owner that `normalizeAppliedStepOwner` gives.
unfoldable pub step_key : AppliedStep → Option NetworkKind → Str
step_key s none = applied_step_key s.kind s.target (trim_space s.owner)
step_key s (some k) =
    applied_step_key s.kind s.target (normalized_rollback_owner s.owner (owner_of k))

unfoldable pub applied_network_step_counter : List AppliedStep → Counter
unfolding is_owned_step step_key network_kind
applied_network_step_counter [] = []
applied_network_step_counter (s ∷ ss) =
    let rest = applied_network_step_counter ss in
    if is_owned_step s (network_kind s.kind) then step_key s (network_kind s.kind) ∷ rest else rest

abbrev pub as_rollback : TunAddressDesiredState → TunAddressRollback
as_rollback a = record {
  family = a.family;
  interface_name = a.interface_name;
  cidr = a.cidr;
  scope = a.scope;
  link_index = a.link_index;
  link_kind = a.link_kind;
  appeared_after_core = a.appeared_after_core;
  owner = a.owner;
}

abbrev pub route_as_rollback : RoutePlan → RouteRollback
route_as_rollback r = record {
  table = r.table;
  cidr = r.cidr;
  via = r.via;
  dev = r.dev;
  owner = r.owner;
}

unfoldable pub is_desired_route : RoutePlan → Bool
is_desired_route r = str_eq r.operation (text "add") && owned_rollback_metadata r.owner owner_route
