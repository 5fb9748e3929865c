-- ===== src/Recovery/Exact.antt =====
-- The entries that a session allocated, and the commands that delete them, as the rules about them say
-- (network_session_cleanup_executor.go): an allocation has one rule for the server, by its mark or by its
-- address, one rule for the tunnel, the default route of its table and host routes to the server.
use podlaz.Common.{
  ℕ, ◌≡◌, refl, ◌≢◌, ◌⊎◌, ◌↔◌, true, some, List, [], ◌∷◌, ◌++◌, Str, text, str_eq_iff, is_empty,
  is_some, trim_space, parse_ip4, arith,
}
use podlaz.Transaction.Model.{RouteRollback, PolicyRuleRollback}
use podlaz.Recovery.Text.{itoa, parse_uint32, is_host_prefix}
use podlaz.Recovery.Allocation.{
  Allocation, is_default_route, is_session_link_route, session_rule_delete_args,
  session_route_delete_args,
}

-- `ip -4 rule del` of the rule of a priority, with the words that select it.
abbrev pub rule_deletion : ℕ → List Str → Str → List Str
rule_deletion priority selector table =
    text "-4"
    ∷ text "rule"
    ∷ text "del"
    ∷ text "priority"
    ∷ itoa priority
    ∷ (selector ++ (text "lookup" ∷ table ∷ []))

abbrev pub route_deletion : Str → List Str → Str → Str → List Str
route_deletion cidr via dev table =
    text "-4"
    ∷ text "route"
    ∷ text "del"
    ∷ cidr
    ∷ (via ++ (text "dev" ∷ dev ∷ text "table" ∷ table ∷ []))

-- The rule for the server that goes by the mark of its packets.
abbrev pub ByMark : Allocation → PolicyRuleRollback → List Str → Type 0
ByMark a r args =
    (r.priority ≡ a.server_rule_priority)
    × (trim_space r.table ≡ text "main")
    × (trim_space r.from ≡ [])
    × (trim_space r.to ≡ [])
    × (a.egress_mark ≢ 0)
    × (parse_uint32 (trim_space r.mark) ≡ some a.egress_mark)
    × (args
        ≡ rule_deletion a.server_rule_priority (text "fwmark" ∷ itoa a.egress_mark ∷ [])
            (text "main"))

-- The rule for the server that goes by its address.
abbrev pub ByAddress : Allocation → PolicyRuleRollback → List Str → Type 0
ByAddress a r args =
    (r.priority ≡ a.server_rule_priority)
    × (trim_space r.table ≡ text "main")
    × (trim_space r.from ≡ [])
    × (a.egress_mark ≡ 0)
    × (trim_space r.mark ≡ [])
    × (is_host_prefix (trim_space r.to) ≡ true)
    × (args ≡ rule_deletion a.server_rule_priority (text "to" ∷ trim_space r.to ∷ []) (text "main"))

-- The rule for all other packets.
abbrev pub IntoTunnel : Allocation → PolicyRuleRollback → List Str → Type 0
IntoTunnel a r args =
    (r.priority ≡ a.tunnel_rule_priority)
    × (trim_space r.table ≡ a.routing_table)
    × (trim_space r.from ≡ text "all")
    × (trim_space r.to ≡ [])
    × (trim_space r.mark ≡ [])
    × (args ≡ rule_deletion a.tunnel_rule_priority (text "from" ∷ text "all" ∷ []) a.routing_table)

-- The rule is one of the allocation, and the words delete the allocation's rule.
abbrev pub AllocatedRule : Allocation → PolicyRuleRollback → List Str → Type 0
AllocatedRule a r args = ByMark a r args ⊎ ByAddress a r args ⊎ IntoTunnel a r args

-- The default route of the allocation's table, through the tunnel.
abbrev pub DefaultRoute : Allocation → RouteRollback → List Str → Type 0
DefaultRoute a r args =
    (trim_space r.table ≡ a.routing_table)
    × (trim_space r.dev ≡ text "podlaz0")
    × ((trim_space r.cidr ≡ text "default") ⊎ (trim_space r.cidr ≡ text "0.0.0.0/0"))
    × (trim_space r.via ≡ [])
    × (args ≡ route_deletion (trim_space r.cidr) [] (text "podlaz0") a.routing_table)

-- A route of the main table to one host, by a gateway or not.
abbrev pub HostRoute : RouteRollback → List Str → Type 0
HostRoute r args =
    (trim_space r.table ≡ text "main")
    × (trim_space r.dev ≢ [])
    × (is_host_prefix (trim_space r.cidr) ≡ true)
    × ((trim_space r.via ≡ [])
          × (args ≡ route_deletion (trim_space r.cidr) [] (trim_space r.dev) (text "main"))
        ⊎ (is_some (parse_ip4 (trim_space r.via)) ≡ true)
          × (args
              ≡ route_deletion (trim_space r.cidr) (text "via" ∷ trim_space r.via ∷ [])
                  (trim_space r.dev) (text "main")))

abbrev pub AllocatedRoute : Allocation → RouteRollback → List Str → Type 0
AllocatedRoute a r args = DefaultRoute a r args ⊎ HostRoute r args

is_empty_iff : (s : Str) → (is_empty s ≡ true) ↔ (s ≡ [])
is_empty_iff [] = (λ h. refl, λ h. refl)
is_empty_iff (c ∷ s) = (λ h. ground arith, λ h. ground arith)

pub session_rule_delete_args-AllocatedRule :
    (a : Allocation) (r : PolicyRuleRollback) (args : List Str)
    → session_rule_delete_args a r ≡ some args
    → AllocatedRule a r args
unfolding session_rule_delete_args
session_rule_delete_args-AllocatedRule a r args h = ground (
  arith,
  str_eq_iff (trim_space r.table) (text "main"),
  str_eq_iff (trim_space r.table) a.routing_table,
  str_eq_iff (trim_space r.from) (text "all"),
  is_empty_iff (trim_space r.from),
  is_empty_iff (trim_space r.to),
  is_empty_iff (trim_space r.mark),
)

pub session_route_delete_args-AllocatedRoute :
    (a : Allocation) (r : RouteRollback) (args : List Str)
    → session_route_delete_args a r ≡ some args
    → AllocatedRoute a r args
unfolding session_route_delete_args is_session_link_route is_default_route
session_route_delete_args-AllocatedRoute a r args h = ground (
  arith,
  str_eq_iff (trim_space r.table) (text "main"),
  str_eq_iff (trim_space r.table) a.routing_table,
  str_eq_iff (trim_space r.dev) (text "podlaz0"),
  str_eq_iff (trim_space r.cidr) (text "default"),
  str_eq_iff (trim_space r.cidr) (text "0.0.0.0/0"),
  is_empty_iff (trim_space r.dev),
  is_empty_iff (trim_space r.via),
)
