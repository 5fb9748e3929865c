-- ===== src/Planner/Allocation.antt =====
-- The resources of a new session (internal/network/planner/tun_resources.go:
-- `AllocateTunResources`). The address is a 32-bit number; the source prints it with its `/32`.
use podlaz.Common.{
  ℕ, zero, suc, ◌+◌, ◌*◌, ◌-◌, ◌/◌, ◌%◌, Bool, not, ◌&&◌, ◌||◌, List, [], ◌∷◌, Option, none, some,
  ◌==◌, leb, any, Result, ok, err, ◌>>=◌, ◌>>◌, if◌then◌else◌,
}
use podlaz.Planner.Evidence.{
  AllocationEvidence, AllocationRoute, AllocationRule, AllocationError, contains, validate_evidence,
  no_address, no_routing_table, no_priorities, no_egress_mark,
}
use podlaz.Planner.Search.{first_free, first_free_pair}

pub record ResourceAllocation : Type 0 where
  pub tun_address : ℕ
  pub routing_table_id : ℕ
  pub server_rule_priority : ℕ
  pub tunnel_rule_priority : ℕ
  pub egress_mark : ℕ

-- 198.18.0.0.
abbrev pub session_pool : ℕ
session_pool = 3323068416

abbrev pub tun_address_allocation_last_host : ℕ
tun_address_allocation_last_host = 254

abbrev pub tun_routing_table_id : ℕ
tun_routing_table_id = 51820

abbrev pub tun_rule_priority : ℕ
tun_rule_priority = 10000

abbrev pub tun_egress_mark : ℕ
tun_egress_mark = 20570

-- The candidates of a table and of a mark: the first and 99 more.
abbrev pub candidates : ℕ
candidates = 100

route_contains : ℕ → AllocationRoute → Bool
route_contains candidate r = not r.is_default && contains r.destination candidate

-- `tunAllocationAddressOccupied`.
unfoldable pub address_occupied : AllocationEvidence → ℕ → Bool
unfolding route_contains
address_occupied e candidate =
    any (λ p. contains p candidate) e.ipv4_addresses || any (route_contains candidate) e.ipv4_routes

unfoldable pub table_used : AllocationEvidence → ℕ → Bool
table_used e candidate =
    any (λ r. r.table == candidate) e.ipv4_routes
    || any (◌==◌ candidate) e.reserved_routing_tables
    || any (λ r. not (r.table == 0) && r.table == candidate) e.ipv4_policy_rules

unfoldable pub priority_used : AllocationEvidence → ℕ → Bool
priority_used e candidate = any (λ r. r.priority == candidate) e.ipv4_policy_rules

-- The highest priority that precedes the rules seen so far. A priority of 0, which the evidence's
-- check excludes, would take the source to -1, where its search starts as little as at 0.
unfoldable pub upper_priority : ℕ → List AllocationRule → ℕ
upper_priority upper [] = upper
upper_priority upper (r ∷ rs) =
    upper_priority (if leb r.priority upper then r.priority - 1 else upper) rs

-- `a & b` on the low bits.
unfoldable pub and_bits : ℕ → ℕ → ℕ → ℕ
and_bits zero a b = 0
and_bits (suc width) a b = (a % 2) * (b % 2) + 2 * and_bits width (a / 2) (b / 2)

-- The mask of a rule, with the whole of a mark that has none.
unfoldable pub effective_mask : AllocationRule → ℕ
effective_mask r = if r.mark_mask == 0 && not (r.mark == 0) then 4294967295 else r.mark_mask

unfoldable pub matches_mark : ℕ → AllocationRule → Bool
unfolding effective_mask
matches_mark candidate r =
    not (effective_mask r == 0)
    && and_bits 32 candidate (effective_mask r) == and_bits 32 r.mark (effective_mask r)

unfoldable pub mark_occupied : AllocationEvidence → ℕ → Bool
mark_occupied e candidate = any (matches_mark candidate) e.ipv4_policy_rules

or_error : Option ℕ → AllocationError → Result AllocationError ℕ
or_error none x = err x
or_error (some n) x = ok n

-- `allocateTunIPv4CIDR`.
unfoldable pub allocate_address : AllocationEvidence → Result AllocationError ℕ
unfolding or_error
allocate_address e =
    or_error (first_free (address_occupied e) (session_pool + 1) tun_address_allocation_last_host)
      no_address

-- `allocateTunRoutingTable`.
unfoldable pub allocate_routing_table : AllocationEvidence → Result AllocationError ℕ
unfolding or_error
allocate_routing_table e =
    or_error (first_free (table_used e) tun_routing_table_id candidates) no_routing_table

-- `allocateTunRulePriorities`: the tunnel's, which the server's precedes by one.
unfoldable pub allocate_rule_priorities : AllocationEvidence → Result AllocationError ℕ
unfolding or_error
allocate_rule_priorities e =
    or_error
      (first_free_pair (priority_used e) (upper_priority tun_rule_priority e.ipv4_policy_rules))
      no_priorities

-- `allocateTunEgressMark`.
unfoldable pub allocate_egress_mark : AllocationEvidence → Result AllocationError ℕ
unfolding or_error
allocate_egress_mark e =
    or_error (first_free (mark_occupied e) tun_egress_mark candidates) no_egress_mark

abbrev pub allocation : ℕ → ℕ → ℕ → ℕ → ResourceAllocation
allocation address table tunnel mark = record {
  tun_address = address;
  routing_table_id = table;
  server_rule_priority = tunnel - 1;
  tunnel_rule_priority = tunnel;
  egress_mark = mark;
}

-- The chain of `AllocateTunResources`: the first error, or every resource.
abbrev pub resources :
    Result AllocationError (Unit {0})
    → Result AllocationError ℕ
    → Result AllocationError ℕ
    → Result AllocationError ℕ
    → Result AllocationError ℕ
    → Result AllocationError ResourceAllocation
resources evidence address table tunnel mark = do
  evidence
  a ← address
  t ← table
  n ← tunnel
  k ← mark
  ok (allocation a t n k)

-- `AllocateTunResources`.
unfoldable pub allocate_tun_resources :
    AllocationEvidence → Result AllocationError ResourceAllocation
allocate_tun_resources e =
    resources (validate_evidence e) (allocate_address e) (allocate_routing_table e)
      (allocate_rule_priorities e) (allocate_egress_mark e)
