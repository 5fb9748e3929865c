-- ===== src/Recovery/Authority.antt =====
-- Which calls a transaction authorizes: to look, and to change what its metadata names as podlaz's own.
use mathlib.Core.List.{Memᴰ}
use podlaz.Common.{ℕ, ◌≡◌, ◌⊎◌, Bool, true, ◌&&◌, Option, none, some, List, Str, text, str_eq}
use podlaz.Transaction.Model.{
  Transaction, RollbackMetadata, TunRollback, TunAddressRollback, DnsRollback, NftablesRollback,
  PolicyRuleRollback, RouteRollback, GeneratedConfigRollback,
}
use podlaz.Recovery.Text.{CleanPath, clean}
use podlaz.Recovery.Model.{
  Call, Host, CleanupResult, FirewallPlan, stat_process, command, roll_back_nftables,
  roll_back_address, read_transaction, remove_transaction, read_directory, remove_all, remove,
  managed_interface,
}
use podlaz.Recovery.Owners.{
  owner_tun_device, owner_dns, owner_firewall, owner_route, owner_policy_rule,
  owned_rollback_metadata, is_managed_nft_target, is_managed_table, is_systemd_resolved_backend,
  is_safe_main_rule, is_safe_main_route,
}
use podlaz.Recovery.Deletes.{
  rule_delete_args, main_rule_delete_args, route_delete_args, main_route_delete_args,
  link_delete_args, revert_args, tun_address_refusal,
}
use podlaz.Recovery.Nftables.{exact_nftables_rollback_plan}
use podlaz.Recovery.Phases.{
  rollback_child_process_results, show_route_args, show_rule_args, config_refusal, generated_dir,
}
use podlaz.Recovery.Links.{LinkIdentity, shows_link, show_link_args}
use podlaz.Recovery.Allocation.{Allocation}
use podlaz.Recovery.Exact.{AllocatedRule, AllocatedRoute}

-- A call that changes nothing.
pub data IsLook : Call → Type 0 where
  at_process : (n : ℕ) → IsLook (stat_process n)
  at_link : IsLook (command (text "ip") show_link_args)
  at_route : (cidr : Str) → IsLook (command (text "ip") (show_route_args cidr))
  at_rule : (n : ℕ) → IsLook (command (text "ip") (show_rule_args n))
  at_transaction : (path : CleanPath) → IsLook (read_transaction path)
  at_directory : (path : CleanPath) → IsLook (read_directory path)

abbrev pub is_own_nftables : NftablesRollback → Bool
is_own_nftables e =
    owned_rollback_metadata e.owner owner_firewall && is_managed_nft_target e.family e.table

abbrev pub is_own_dns : DnsRollback → Bool
is_own_dns e =
    owned_rollback_metadata e.owner owner_dns
    && str_eq e.link managed_interface
    && is_systemd_resolved_backend e.backend

abbrev pub is_own_tun : TunRollback → Bool
is_own_tun e =
    owned_rollback_metadata e.owner owner_tun_device && str_eq e.interface_name managed_interface

-- The arguments that delete a rule: without an allocation, those of a bypass rule of the main table or
-- of a rule of podlaz's table; with one, those of the rule that the session allocated.
abbrev pub DeletesRule : Option Allocation → PolicyRuleRollback → List Str → Type 0
DeletesRule none e args =
    (owned_rollback_metadata e.owner owner_policy_rule ≡ true)
    × ((is_safe_main_rule e ≡ true) × (args ≡ main_rule_delete_args e)
        ⊎ (is_managed_table e.table ≡ true) × (args ≡ rule_delete_args e))
DeletesRule (some a) e args =
    (owned_rollback_metadata e.owner owner_policy_rule ≡ true) × AllocatedRule a e args

abbrev pub DeletesRoute : Option Allocation → RouteRollback → List Str → Type 0
DeletesRoute none e args =
    (owned_rollback_metadata e.owner owner_route ≡ true)
    × ((is_safe_main_route e ≡ true) × (args ≡ main_route_delete_args e)
        ⊎ (is_managed_table e.table ≡ true) × (args ≡ route_delete_args e))
DeletesRoute (some a) e args =
    (owned_rollback_metadata e.owner owner_route ≡ true) × AllocatedRoute a e args

-- The host has shown the link that the transaction created: `t` is what was called before it was asked.
abbrev pub IsProvenLink : Host → Option LinkIdentity → List Call → Type 0
IsProvenLink host expected t =
    (i : LinkIdentity) × (expected ≡ some i)
    × (shows_link i (host.run_command t (text "ip") show_link_args) ≡ true)

-- The results about the processes of a transaction, and what was called up to then.
abbrev pub after_processes : Host → RollbackMetadata → List Call → List CleanupResult × List Call
after_processes host m t = rollback_child_process_results host m.child_processes t

-- The calls that the metadata `m` of a transaction authorizes: `Proven` is the proof about the link that
-- every change of the link needs.
pub data IsAuthorized (a : Option Allocation) (runtime_dir path : CleanPath) (tx : Transaction)
    (m : RollbackMetadata) (Proven : Type 0) : Call → Type 0 where
  looks : {c : Call} → IsLook c → IsAuthorized a runtime_dir path tx m Proven c
  rolls_back_nftables :
      {e : NftablesRollback} {plan : FirewallPlan}
      → Memᴰ e m.nftables
      → is_own_nftables e ≡ true
      → exact_nftables_rollback_plan tx e ≡ some plan
      → IsAuthorized a runtime_dir path tx m Proven (roll_back_nftables plan)
  deletes_rule :
      {e : PolicyRuleRollback} {args : List Str}
      → Memᴰ e m.policy_rules
      → DeletesRule a e args
      → IsAuthorized a runtime_dir path tx m Proven (command (text "ip") args)
  deletes_route :
      {e : RouteRollback} {args : List Str}
      → Memᴰ e m.routes
      → DeletesRoute a e args
      → IsAuthorized a runtime_dir path tx m Proven (command (text "ip") args)
  reverts_dns :
      {e : DnsRollback}
      → Memᴰ e m.dns
      → is_own_dns e ≡ true
      → Proven
      → IsAuthorized a runtime_dir path tx m Proven (command (text "resolvectl") revert_args)
  rolls_back_address :
      {e : TunAddressRollback} {allow_missing : Bool}
      → Memᴰ e m.tun_addresses
      → tun_address_refusal e ≡ none
      → Proven
      → IsAuthorized a runtime_dir path tx m Proven (roll_back_address e allow_missing)
  deletes_link :
      {e : TunRollback}
      → Memᴰ e m.tun
      → is_own_tun e ≡ true
      → Proven
      → IsAuthorized a runtime_dir path tx m Proven (command (text "ip") link_delete_args)
  removes_config :
      {e : GeneratedConfigRollback}
      → Memᴰ e m.generated_configs
      → config_refusal runtime_dir e ≡ none
      → IsAuthorized a runtime_dir path tx m Proven (remove_all (clean e.path))
  removes_empty_root :
      IsAuthorized a runtime_dir path tx m Proven (remove (generated_dir runtime_dir))
  removes_transaction : IsAuthorized a runtime_dir path tx m Proven (remove_transaction path)

-- A predicate on calls that holds of all that is authorized, by part: of every look; of the changes
-- that need no proof of the link; of those that do; of those of the generated configurations.
pub record Grants (P : Call → Type 0) (a : Option Allocation) (tx : Transaction)
    (m : RollbackMetadata) : Type 0 where
  pub grants_look : (c : Call) → IsLook c → P c
  pub grants_nftables :
      (e : NftablesRollback) (plan : FirewallPlan)
      → Memᴰ e m.nftables
      → is_own_nftables e ≡ true
      → exact_nftables_rollback_plan tx e ≡ some plan
      → P (roll_back_nftables plan)
  pub grants_rule :
      (e : PolicyRuleRollback) (args : List Str)
      → Memᴰ e m.policy_rules
      → DeletesRule a e args
      → P (command (text "ip") args)
  pub grants_route :
      (e : RouteRollback) (args : List Str)
      → Memᴰ e m.routes
      → DeletesRoute a e args
      → P (command (text "ip") args)

pub record LinkGrants (P : Call → Type 0) (m : RollbackMetadata) : Type 0 where
  pub grants_dns :
      (e : DnsRollback)
      → Memᴰ e m.dns
      → is_own_dns e ≡ true
      → P (command (text "resolvectl") revert_args)
  pub grants_address :
      (e : TunAddressRollback) (allow_missing : Bool)
      → Memᴰ e m.tun_addresses
      → tun_address_refusal e ≡ none
      → P (roll_back_address e allow_missing)
  pub grants_tun :
      (e : TunRollback)
      → Memᴰ e m.tun
      → is_own_tun e ≡ true
      → P (command (text "ip") link_delete_args)

pub record ConfigGrants (P : Call → Type 0) (runtime_dir : CleanPath) (m : RollbackMetadata)
    : Type 0 where
  pub grants_config :
      (e : GeneratedConfigRollback)
      → Memᴰ e m.generated_configs
      → config_refusal runtime_dir e ≡ none
      → P (remove_all (clean e.path))
  pub grants_root : P (remove (generated_dir runtime_dir))
