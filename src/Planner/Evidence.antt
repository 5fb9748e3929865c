-- ===== src/Planner/Evidence.antt =====
-- What the allocation reads of the host (internal/network/snapshot/tun_allocation_model.go), and
-- its check (internal/network/planner/tun_resources.go: `validateTunAllocationEvidence`).
use podlaz.Common.{
  ℕ, ◌-◌, ◌/◌, ◌^◌, Bool, false, not, ◌&&◌, ◌||◌, List, [], ◌∷◌, ◌==◌, leb, any, Result, ok, err,
  if◌then◌else◌,
}

-- A `netip.Prefix`: of IPv4 with its address as a 32-bit number, of IPv6, or the invalid zero value.
pub data Prefix : Type 0 where
  ipv4 : ℕ → ℕ → Prefix
  ipv6 : ℕ → ℕ → Prefix
  no_prefix : Prefix

pub record AllocationRoute : Type 0 where
  pub destination : Prefix
  pub is_default : Bool
  pub table : ℕ
  pub kind : ℕ
  pub link_index : ℕ

pub record AllocationRule : Type 0 where
  pub priority : ℕ
  pub table : ℕ
  pub has_mark : Bool
  pub mark : ℕ
  pub mark_mask : ℕ

pub record AllocationEvidence : Type 0 where
  pub ipv4_addresses : List Prefix
  pub ipv4_routes : List AllocationRoute
  pub ipv4_policy_rules : List AllocationRule
  pub reserved_routing_tables : List ℕ

-- `IsValid` and `Is4`.
is_ipv4_prefix : Prefix → Bool
is_ipv4_prefix (ipv4 _ bits) = leb bits 32
is_ipv4_prefix (ipv6 _ _) = false
is_ipv4_prefix no_prefix = false

is_valid_prefix : Prefix → Bool
is_valid_prefix (ipv4 _ bits) = leb bits 32
is_valid_prefix (ipv6 _ bits) = leb bits 128
is_valid_prefix no_prefix = false

-- `Contains` of an IPv4 address.
unfoldable pub contains : Prefix → ℕ → Bool
contains (ipv4 address bits) ip = leb bits 32 && address / 2 ^ (32 - bits) == ip / 2 ^ (32 - bits)
contains (ipv6 _ _) ip = false
contains no_prefix ip = false

pub data AllocationError : Type 0 where
  malformed_address route_without_table default_with_destination malformed_route : AllocationError
  unspecified_table malformed_priority : AllocationError
  no_address no_routing_table no_priorities no_egress_mark : AllocationError

is_malformed_route : AllocationRoute → Bool
unfolding is_ipv4_prefix is_valid_prefix
is_malformed_route r =
    r.table == 0
    || (if r.is_default then is_valid_prefix r.destination else not (is_ipv4_prefix r.destination))

is_malformed_priority : AllocationRule → Bool
is_malformed_priority r = r.priority == 0 || leb 32766 r.priority

-- The error of the first malformed route.
route_error : AllocationRoute → AllocationError
route_error r =
    if r.table == 0
    then route_without_table
    else if r.is_default
    then default_with_destination
    else malformed_route

check_routes : List AllocationRoute → Result AllocationError Unit
unfolding is_malformed_route route_error
check_routes [] = ok tt
check_routes (r ∷ rs) =
    let rest = check_routes rs in if is_malformed_route r then err (route_error r) else rest

-- `validateTunAllocationEvidence`.
unfoldable pub validate_evidence : AllocationEvidence → Result AllocationError Unit
unfolding is_ipv4_prefix check_routes is_malformed_priority
validate_evidence e =
    if any (λ p. not (is_ipv4_prefix p)) e.ipv4_addresses
    then err malformed_address
    else elim (check_routes e.ipv4_routes) [
      | err x ↦ err x
      | ok _ ↦
          if any (◌==◌ 0) e.reserved_routing_tables
          then err unspecified_table
          else if any is_malformed_priority e.ipv4_policy_rules
          then err malformed_priority
          else ok tt
    ]
