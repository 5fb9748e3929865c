-- ===== src/Recovery/Deletes.antt =====
-- What a cleanup passes to the host, and which entries of a plan were not recorded
-- (daemon_executor.go, tun_address_recovery.go, desired_plan_ambiguity.go, resolved.go).
use podlaz.Common.{
  ℕ, Bool, false, not, ◌&&◌, ◌||◌, ◌==◌, Option, none, some, List, [], ◌∷◌, ◌++◌, Str, text, str_eq,
  is_empty, is_some, trim_space, if◌then◌else◌, any,
}
use podlaz.Transaction.Model.{
  RoutePlan, PlannedStep, RollbackMetadata, TunAddressRollback, RouteRollback, PolicyRuleRollback,
  transaction_owner,
}
use podlaz.Recovery.Text.{itoa}
use podlaz.Recovery.Model.{
  Candidate, CommandResult, Message, managed_interface, policy_rule, resource, route,
  tun_address_family, tun_address_identity, tun_address_namespace, tun_address_owner,
  tun_address_scope,
}
use podlaz.Recovery.Owners.{
  owner_tun_address, main_routing_table, managed_route_table_id, owned_rollback_metadata,
  is_allocated_tun_ipv4_cidr, is_safe_main_rule,
}
use podlaz.Recovery.Metadata.{desired_policy_rule_rollback}

abbrev pub is_owned : Str → Bool
is_owned owner = str_eq owner transaction_owner

-- `sprintf("%s table %s")`.
abbrev pub in_table : Str → Str → Str
in_table what table = what ++ (text " table " ++ table)

abbrev pub route_candidate : Str → Str → Candidate
route_candidate cidr table = resource route (in_table cidr table)

abbrev pub rule_candidate : ℕ → Str → Candidate
rule_candidate priority table =
    resource policy_rule (in_table (text "priority " ++ itoa priority) table)

optional : Str → Str → List Str
optional what value = if is_empty (trim_space value) then [] else what ∷ trim_space value ∷ []

-- The arguments of `ip` in `OSCleanupExecutor.rollbackPolicyRule`.
unfoldable pub rule_delete_args : PolicyRuleRollback → List Str
unfolding optional
rule_delete_args r =
    text "-4"
    ∷ text "rule"
    ∷ text "del"
    ∷ text "priority"
    ∷ itoa r.priority
    ∷ (optional (text "from") r.from
        ++ (optional (text "to") r.to
            ++ (optional (text "fwmark") r.mark ++ (text "lookup" ∷ managed_route_table_id ∷ []))))

-- In `rollbackMainServerBypassPolicyRule`.
unfoldable pub main_rule_delete_args : PolicyRuleRollback → List Str
main_rule_delete_args r =
    text "-4"
    ∷ text "rule"
    ∷ text "del"
    ∷ text "priority"
    ∷ itoa r.priority
    ∷ text "to"
    ∷ trim_space r.to
    ∷ text "lookup"
    ∷ main_routing_table
    ∷ []

-- In `OSCleanupExecutor.rollbackRoute`.
unfoldable pub route_delete_args : RouteRollback → List Str
unfolding optional
route_delete_args r =
    text "-4"
    ∷ text "route"
    ∷ text "del"
    ∷ trim_space r.cidr
    ∷ (optional (text "via") r.via
        ++ ((if is_empty (trim_space r.dev) then [] else text "dev" ∷ r.dev ∷ [])
            ++ (text "table" ∷ managed_route_table_id ∷ [])))

-- In `rollbackMainServerBypassRoute`.
unfoldable pub main_route_delete_args : RouteRollback → List Str
main_route_delete_args r =
    text "-4"
    ∷ text "route"
    ∷ text "del"
    ∷ trim_space r.cidr
    ∷ text "via"
    ∷ trim_space r.via
    ∷ text "dev"
    ∷ trim_space r.dev
    ∷ text "table"
    ∷ main_routing_table
    ∷ []

abbrev pub link_delete_args : List Str
link_delete_args = text "link" ∷ text "del" ∷ text "dev" ∷ managed_interface ∷ []

abbrev pub revert_args : List Str
revert_args = text "revert" ∷ managed_interface ∷ []

-- `validateTunAddressRollback`: what is wrong with the entry.
unfoldable pub tun_address_refusal : TunAddressRollback → Option Message
tun_address_refusal e =
    if not (owned_rollback_metadata e.owner owner_tun_address)
    then some tun_address_owner
    else if not (str_eq e.interface_name managed_interface)
        || e.link_index == 0
        || not (str_eq e.link_kind (text "tun"))
        || not e.appeared_after_core
    then some tun_address_identity
    else if not (is_allocated_tun_ipv4_cidr e.cidr)
    then some tun_address_namespace
    else if not (is_empty e.family) && not (str_eq e.family (text "ipv4"))
    then some tun_address_family
    else if not (is_empty e.scope) && not (str_eq e.scope (text "global"))
    then some tun_address_scope
    else none

-- `resolvedMissingDeviceResult`: revert failed because the link is gone, and says nothing else.
unfoldable pub is_missing_device : CommandResult → Bool
is_missing_device r =
    let managed = b'"' ∷ (managed_interface ++ (b'"' ∷ [])) in
    let line = text "Failed to resolve interface " ++ (managed ++ text ": No such device") in
    let ignoring =
      text "Failed to resolve interface " ++ (managed ++ text ", ignoring: No such device") in
    not r.cancelled
    && is_some r.error
    && elim r.exit_code [ none ↦ false | some n ↦ n == 1 ]
    && is_empty r.raw_stdout
    && (str_eq r.raw_stderr (line ++ (10 ∷ []))
        || str_eq r.raw_stderr (line ++ (13 ∷ 10 ∷ []))
        || str_eq r.raw_stderr (ignoring ++ (10 ∷ []))
        || str_eq r.raw_stderr (ignoring ++ (13 ∷ 10 ∷ [])))

is_recorded_route : RoutePlan → RouteRollback → Bool
is_recorded_route d e =
    str_eq e.table d.table && str_eq e.cidr d.cidr && str_eq e.via d.via && str_eq e.dev d.dev

is_recorded_rule : PolicyRuleRollback → PolicyRuleRollback → Bool
is_recorded_rule d e =
    e.priority == d.priority
    && str_eq e.table d.table
    && str_eq e.from d.from
    && str_eq e.to d.to
    && str_eq e.mark d.mark

unfoldable pub is_unrecorded_route : RollbackMetadata → RoutePlan → Bool
unfolding is_recorded_route
is_unrecorded_route m r =
    str_eq r.operation (text "add")
    && str_eq r.table main_routing_table
    && not (any (is_recorded_route r) m.routes)

is_unrecorded_rule : RollbackMetadata → Option PolicyRuleRollback → Bool
is_unrecorded_rule m none = false
is_unrecorded_rule m (some r) = is_safe_main_rule r && not (any (is_recorded_rule r) m.policy_rules)

unfoldable pub is_unrecorded_step : RollbackMetadata → PlannedStep → Bool
unfolding is_recorded_rule is_unrecorded_rule
is_unrecorded_step m s = is_unrecorded_rule m (desired_policy_rule_rollback s)

unfoldable pub priority_of : Option PolicyRuleRollback → ℕ
priority_of none = 0
priority_of (some r) = r.priority
