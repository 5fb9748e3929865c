-- ===== src/Planner/Freedom.antt =====
-- What the allocation promises: nothing that it selects is in use.
use mathlib.Core.Path.{subst}
use podlaz.Common.{
  ℕ, ◌+◌, ◌-◌, ◌≤◌, ◌<◌, ◌≡◌, ◌≢◌, ◌⊎◌, inl, inr, refl, Bool, true, false, not, ◌&&◌, List, [], ◌∷◌,
  ◌==◌, leb, any, All, Result, ok, err, arith, Bool-cases,
}
use podlaz.Planner.Evidence.{
  AllocationEvidence, AllocationRoute, AllocationRule, AllocationError, contains, validate_evidence,
}
use podlaz.Planner.Search.{first_free-eq-some, first_free_pair-eq-some}
use podlaz.Planner.Allocation.{
  ResourceAllocation, session_pool, tun_address_allocation_last_host, tun_routing_table_id,
  tun_rule_priority, tun_egress_mark, candidates, address_occupied, table_used, priority_used,
  upper_priority, matches_mark, mark_occupied, allocate_address, allocate_routing_table,
  allocate_rule_priorities, allocate_egress_mark, allocate_tun_resources, resources,
}

any-eq-false :
    {A : Type 0} (p : A → Bool) (xs : List A) → any p xs ≡ false → All (λ x. p x ≡ false) xs
any-eq-false p [] h = tt
any-eq-false p (x ∷ xs) h = (ground arith, any-eq-false p xs (ground arith))

All-mono :
    {A : Type 0} {P Q : A → Type 0} (f : (x : A) → P x → Q x) (xs : List A) → All P xs → All Q xs
All-mono f [] h = tt
All-mono f (x ∷ xs) (a, h) = (f x a, All-mono f xs h)

All-zip :
    {A : Type 0} {P Q R : A → Type 0} (f : (x : A) → P x → Q x → R x) (xs : List A)
    → All P xs
    → All Q xs
    → All R xs
All-zip f [] g h = tt
All-zip f (x ∷ xs) (a, g) (b, h) = (f x a b, All-zip f xs g h)

-- No route but a default one contains the address, and none uses the table.
abbrev pub FreeOfRoute : ResourceAllocation → AllocationRoute → Type 0
FreeOfRoute a r =
    (r.table ≢ a.routing_table_id)
    × ((r.is_default ≡ true) ⊎ (contains r.destination a.tun_address ≡ false))

-- A rule comes behind the session's own, looks up another table, and matches no marked packet.
abbrev pub FreeOfRule : ResourceAllocation → AllocationRule → Type 0
FreeOfRule a r =
    (a.tunnel_rule_priority < r.priority)
    × (r.table ≢ a.routing_table_id)
    × (matches_mark a.egress_mark r ≡ false)

abbrev pub IsFree : AllocationEvidence → ResourceAllocation → Type 0
IsFree e a =
    All (λ p. contains p a.tun_address ≡ false) e.ipv4_addresses
    × All (FreeOfRoute a) e.ipv4_routes
    × All (FreeOfRule a) e.ipv4_policy_rules
    × All (λ t. t ≢ a.routing_table_id) e.reserved_routing_tables
    × (0 < a.server_rule_priority)
    × (a.server_rule_priority + 1 ≡ a.tunnel_rule_priority)
    × (a.tunnel_rule_priority ≤ tun_rule_priority)

upper_priority_below : (upper : ℕ) (rs : List AllocationRule) → upper_priority upper rs ≤ upper
unfolding upper_priority
upper_priority_below upper [] = omega arith
upper_priority_below upper (r ∷ rs) =
    ground (arith, upper_priority_below (r.priority - 1) rs, upper_priority_below upper rs)

pub upper_priority_first :
    (k upper : ℕ) (rs : List AllocationRule)
    → 1 ≤ k
    → k ≤ upper_priority upper rs
    → All (λ r. k < r.priority) rs
unfolding upper_priority
upper_priority_first k upper [] l m = tt
upper_priority_first k upper (r ∷ rs) l m = elim (Bool-cases (leb r.priority upper)) [
  | inl b ↦ (
    ground (arith, upper_priority_below (r.priority - 1) rs),
    upper_priority_first k (r.priority - 1) rs l (ground arith),
  )
  | inr b ↦ (
    ground (arith, upper_priority_below upper rs),
    upper_priority_first k upper rs l (ground arith),
  )
]

address_free :
    (e : AllocationEvidence) {a : ℕ}
    → allocate_address e ≡ ok a
    → All (λ p. contains p a ≡ false) e.ipv4_addresses
      × All (λ r. (r.is_default ≡ true) ⊎ (contains r.destination a ≡ false)) e.ipv4_routes
unfolding allocate_address address_occupied
address_free e {a} h =
    let (o, _, _) =
      first_free-eq-some (address_occupied e) (session_pool + 1) tun_address_allocation_last_host
        {c = a} (ground arith) in
    (
      any-eq-false (λ p. contains p a) e.ipv4_addresses (ground arith),
      All-mono (λ r f. ground arith) e.ipv4_routes
          (any-eq-false (λ r. not r.is_default && contains r.destination a) e.ipv4_routes
            (ground arith)),
    )

table_free :
    (e : AllocationEvidence) {t : ℕ}
    → allocate_routing_table e ≡ ok t
    → All (λ r. r.table ≢ t) e.ipv4_routes
      × All (λ r. r.table ≢ t) e.ipv4_policy_rules
      × All (λ n. n ≢ t) e.reserved_routing_tables
unfolding allocate_routing_table table_used
table_free e {t} h =
    let (o, l, _) =
      first_free-eq-some (table_used e) tun_routing_table_id candidates {c = t} (ground arith) in
    (
      All-mono (λ r f q. ground arith) e.ipv4_routes
          (any-eq-false (λ r. r.table == t) e.ipv4_routes (ground arith)),
      All-mono (λ r f q. ground arith) e.ipv4_policy_rules
          (any-eq-false (λ r. not (r.table == 0) && r.table == t) e.ipv4_policy_rules
            (ground arith)),
      All-mono (λ n f q. ground arith) e.reserved_routing_tables
          (any-eq-false (◌==◌ t) e.reserved_routing_tables (ground arith)),
    )

priorities_free :
    (e : AllocationEvidence) {n : ℕ}
    → allocate_rule_priorities e ≡ ok n
    → All (λ r. n < r.priority) e.ipv4_policy_rules × (2 ≤ n) × (n ≤ tun_rule_priority)
unfolding allocate_rule_priorities
priorities_free e {n} h =
    let upper = upper_priority tun_rule_priority e.ipv4_policy_rules in
    let (_, _, l, m) = first_free_pair-eq-some (priority_used e) upper {c = n} (ground arith) in
    (
      upper_priority_first n tun_rule_priority e.ipv4_policy_rules (omega arith) m,
      l,
      ground (arith, upper_priority_below tun_rule_priority e.ipv4_policy_rules),
    )

mark_free :
    (e : AllocationEvidence) {k : ℕ}
    → allocate_egress_mark e ≡ ok k
    → All (λ r. matches_mark k r ≡ false) e.ipv4_policy_rules
unfolding allocate_egress_mark mark_occupied
mark_free e {k} h =
    let (o, _, _) =
      first_free-eq-some (mark_occupied e) tun_egress_mark candidates {c = k} (ground arith) in
    any-eq-false (matches_mark k) e.ipv4_policy_rules o

ok-injective : {E A : Type 0} {a b : A} → ◌≡◌ {A = Result E A} (ok a) (ok b) → a ≡ b
ok-injective h = cc

assemble :
    (e : AllocationEvidence) (v : Result AllocationError Unit)
    (ra rt rn rk : Result AllocationError ℕ) {a : ResourceAllocation}
    → allocate_address e ≡ ra
    → allocate_routing_table e ≡ rt
    → allocate_rule_priorities e ≡ rn
    → allocate_egress_mark e ≡ rk
    → resources v ra rt rn rk ≡ ok a
    → IsFree e a
assemble e (ok _) (ok a) (ok t) (ok n) (ok k) ea et en ek h =
    let (x, y) = address_free e ea in
    let (u, v, w) = table_free e et in
    let (p, l, m) = priorities_free e en in
    let marks : All (λ r. (r.table ≢ t) × (matches_mark k r ≡ false)) e.ipv4_policy_rules =
      All-zip (λ r f g. (f, g)) e.ipv4_policy_rules v (mark_free e ek) in
    subst (IsFree e) (ok-injective h) (
      x,
      All-zip (λ r f g. (f, g)) e.ipv4_routes u y,
      All-zip (λ r f (g : (r.table ≢ t) × (matches_mark k r ≡ false)). (f, g.0, g.1))
          e.ipv4_policy_rules p marks,
      w,
      omega arith,
      omega arith,
      m,
    )
assemble e (err _) ra rt rn rk ea et en ek h = cc
assemble e (ok _) (err _) rt rn rk ea et en ek h = cc
assemble e (ok _) (ok _) (err _) rn rk ea et en ek h = cc
assemble e (ok _) (ok _) (ok _) (err _) rk ea et en ek h = cc
assemble e (ok _) (ok _) (ok _) (ok _) (err _) ea et en ek h = cc

-- Resources that are allocated collide with nothing of the host: no address and no route covers the
-- new address, no route, rule or reservation has the table, and the two priorities are adjacent,
-- precede every rule of the host, and the mark is matched by none.
pub allocate_tun_resources-IsFree :
    (e : AllocationEvidence) {a : ResourceAllocation} → allocate_tun_resources e ≡ ok a → IsFree e a
unfolding allocate_tun_resources
allocate_tun_resources-IsFree e h =
    assemble e (validate_evidence e) (allocate_address e) (allocate_routing_table e)
      (allocate_rule_priorities e) (allocate_egress_mark e) refl refl refl refl h
