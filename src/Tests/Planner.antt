-- ===== src/Tests/Planner.antt =====
-- A host whose historical address, table and mark are in use.
use podlaz.Common.{◌≡◌, refl, true, false, [], ◌∷◌, ok, err}
use podlaz.Planner.Evidence.{
  AllocationEvidence, ipv4, no_prefix, no_priorities, validate_evidence, contains,
}
use podlaz.Planner.Search.{first_free, first_free_pair}
use podlaz.Planner.Allocation.{
  ResourceAllocation, allocation, address_occupied, table_used, priority_used, upper_priority,
  matches_mark, mark_occupied, effective_mask, and_bits, allocate_address, allocate_routing_table,
  allocate_rule_priorities, allocate_egress_mark, allocate_tun_resources,
}
use podlaz.Planner.Freedom.{IsFree, allocate_tun_resources-IsFree}

program : Unit {0}
unfolding validate_evidence contains first_free first_free_pair address_occupied table_used
    priority_used upper_priority matches_mark mark_occupied effective_mask and_bits allocate_address
    allocate_routing_table allocate_rule_priorities allocate_egress_mark allocate_tun_resources
program = tt

-- 198.18.0.1/32, a route for 198.18.0.2/31, table 51820 of a rule with mark 20570 at 5000.
abbrev host : AllocationEvidence
host = record {
  ipv4_addresses = ipv4 3323068417 32 ∷ [];
  ipv4_routes =
      record {
        destination = ipv4 3323068418 31;
        is_default = false;
        table = 254;
        kind = 1;
        link_index = 2;
      }
      ∷ record { destination = no_prefix; is_default = true; table = 254; kind = 1; link_index = 2 }
      ∷ [];
  ipv4_policy_rules =
      record { priority = 5000; table = 51820; has_mark = true; mark = 20570; mark_mask = 0 } ∷ [];
  reserved_routing_tables = 51821 ∷ [];
}

abbrev chosen : ResourceAllocation
chosen = allocation 3323068420 51822 4999 20571

allocated : allocate_tun_resources host ≡ ok chosen
unfolding program
allocated = refl

allocate_tun_resources-IsFree_example : IsFree host chosen
allocate_tun_resources-IsFree_example = allocate_tun_resources-IsFree host allocated

abbrev crowded : AllocationEvidence
crowded = record host {
  ipv4_policy_rules =
      record { priority = 2; table = 254; has_mark = false; mark = 0; mark_mask = 0 } ∷ [];
}

refused : allocate_tun_resources crowded ≡ err no_priorities
unfolding program
refused = refl
