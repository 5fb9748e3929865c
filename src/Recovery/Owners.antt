-- ===== src/Recovery/Owners.antt =====
-- Which owners and targets are podlaz's own (daemon_executor.go, recovery.go,
-- planner/tun_session_resource_identity.go).
use podlaz.Common.{
  ℕ, Bool, false, not, ◌&&◌, ◌||◌, Option, none, some, Str, text, str_eq, trim_space, ◌==◌, leb,
  is_empty, is_some, if◌then◌else◌, Ip4, parse_ip4,
}
use podlaz.Transaction.Model.{RouteRollback, PolicyRuleRollback, transaction_owner}
use podlaz.Recovery.Text.{atoi, host_prefix, is_host_prefix}
use podlaz.Recovery.Model.{managed_interface}

abbrev pub owner_tun_device : Str
owner_tun_device = text "podlaz:tun-device"

abbrev pub owner_tun_address : Str
owner_tun_address = text "podlaz:tun-address"

abbrev pub owner_route : Str
owner_route = text "podlaz:route"

abbrev pub owner_policy_rule : Str
owner_policy_rule = text "podlaz:policy-rule"

abbrev pub owner_dns : Str
owner_dns = text "podlaz:dns-link"

abbrev pub owner_firewall : Str
owner_firewall = text "podlaz:nftables"

abbrev pub main_routing_table : Str
main_routing_table = text "main"

abbrev pub default_tun_ipv4_cidr : Str
default_tun_ipv4_cidr = text "198.18.0.1/32"

unfoldable pub owned_rollback_metadata : Str → Str → Bool
owned_rollback_metadata owner expected =
    not (is_empty (trim_space expected))
    && (str_eq (trim_space owner) (trim_space expected)
        || str_eq (trim_space owner) transaction_owner)

unfoldable pub normalized_rollback_owner : Str → Str → Str
normalized_rollback_owner owner expected =
    if str_eq (trim_space owner) transaction_owner then expected else trim_space owner

unfoldable pub is_managed_nft_target : Str → Str → Bool
is_managed_nft_target family table =
    str_eq (trim_space family) (text "inet") && str_eq (trim_space table) (text "podlaz")

abbrev pub managed_route_table_id : Str
managed_route_table_id = text "51820"

unfoldable pub managed_table_token : Str → Option Str
managed_table_token table =
    if str_eq (trim_space table) (text "podlaz") || str_eq (trim_space table) managed_route_table_id
    then some managed_route_table_id
    else none

unfoldable pub is_managed_table : Str → Bool
is_managed_table table = is_some (managed_table_token table)

in_session_pool : Option Ip4 → Bool
in_session_pool none = false
in_session_pool (some a) = a.a == 198 && a.b == 18 && a.c == 0 && leb 1 a.d && leb a.d 254

pool_address : Option Str → Bool
pool_address none = false
pool_address (some s) = in_session_pool (parse_ip4 s)

unfoldable pub is_allocated_tun_ipv4_cidr : Str → Bool
unfolding in_session_pool pool_address
is_allocated_tun_ipv4_cidr cidr = pool_address (host_prefix (trim_space cidr))

in_table_range : Option ℕ → Bool
in_table_range none = false
in_table_range (some n) = leb 51820 n && leb n 51919

unfoldable pub is_allocated_tun_routing_table : Str → Bool
unfolding in_table_range
is_allocated_tun_routing_table table = in_table_range (atoi (trim_space table))

unfoldable pub is_systemd_resolved_backend : Str → Bool
is_systemd_resolved_backend backend =
    is_empty (trim_space backend)
    || str_eq (trim_space backend) (text "systemd-resolved")
    || str_eq (trim_space backend) (text "systemd-resolved per-link DNS")

-- `safeMainServerBypassPolicyRule`.
unfoldable pub is_safe_main_rule : PolicyRuleRollback → Bool
is_safe_main_rule rule =
    rule.priority == 9999
    && str_eq (trim_space rule.table) main_routing_table
    && is_empty (trim_space rule.from)
    && is_empty (trim_space rule.mark)
    && is_host_prefix (trim_space rule.to)

-- `safeMainServerBypassRoute`.
unfoldable pub is_safe_main_route : RouteRollback → Bool
is_safe_main_route route =
    str_eq (trim_space route.table) main_routing_table
    && is_host_prefix (trim_space route.cidr)
    && not (is_empty (trim_space route.via))
    && not (is_empty (trim_space route.dev))

unfoldable pub is_link_dependent_route : RouteRollback → Bool
is_link_dependent_route route =
    not (is_safe_main_route route)
    && (str_eq (trim_space route.dev) managed_interface || is_managed_table route.table)
