-- ===== src/Planner/Failure.antt =====
-- Why an allocation fails.
use mathlib.Core.Path.{subst}
use podlaz.Common.{
  ℕ, ◌+◌, ◌-◌, ◌≤◌, ◌<◌, ◌≡◌, ◌⊎◌, inl, inr, refl, ◌∙◌, true, false, List, [], ◌∷◌, ◌==◌, leb, any,
  All, Result, ok, err, arith, if◌then◌else◌, Option-cases, Bool-cases,
}
use podlaz.Planner.Evidence.{
  AllocationEvidence, AllocationRule, AllocationError, validate_evidence, no_address,
  no_routing_table, no_priorities, no_egress_mark, malformed_address, route_without_table,
  default_with_destination, malformed_route, unspecified_table, malformed_priority,
}
use podlaz.Planner.Search.{first_free, range, first_free-eq-none, first_free_pair_free}
use podlaz.Planner.Freedom.{upper_priority_first}
use podlaz.Planner.Allocation.{
  session_pool, tun_address_allocation_last_host, tun_routing_table_id, tun_rule_priority,
  tun_egress_mark, candidates, address_occupied, table_used, priority_used, upper_priority,
  mark_occupied, allocate_address, allocate_routing_table, allocate_rule_priorities,
  allocate_egress_mark, allocate_tun_resources, resources,
}

-- Why no resource was found: every candidate of a pool is in use, or
-- a rule of the host stands at one of the first two priorities.
abbrev pub Justifies : AllocationEvidence → AllocationError → Type 0
Justifies e no_address =
    All (λ c. address_occupied e c ≡ true)
      (range (session_pool + 1) tun_address_allocation_last_host)
Justifies e no_routing_table =
    All (λ c. table_used e c ≡ true) (range tun_routing_table_id candidates)
Justifies e no_priorities = any (λ r. leb r.priority 2) e.ipv4_policy_rules ≡ true
Justifies e no_egress_mark = All (λ c. mark_occupied e c ≡ true) (range tun_egress_mark candidates)
Justifies e malformed_address = ⊥
Justifies e route_without_table = ⊥
Justifies e default_with_destination = ⊥
Justifies e malformed_route = ⊥
Justifies e unspecified_table = ⊥
Justifies e malformed_priority = ⊥

same_error :
    {E A B : Type 0} {a b : E}
    → ◌≡◌ {A = Result E A} (err a) (err b)
    → ◌≡◌ {A = Result E B} (err a) (err b)
same_error h = cc

address_error :
    (e : AllocationEvidence) {x : AllocationError} → allocate_address e ≡ err x → Justifies e x
unfolding allocate_address
address_error e {x} h =
    elim (Option-cases
      (first_free (address_occupied e) (session_pool + 1) tun_address_allocation_last_host)) [
        | inl n ↦ subst (Justifies e) {x = no_address} (ground arith) (
            first_free-eq-none (address_occupied e) (session_pool + 1)
              tun_address_allocation_last_host n)
        | inr (c, q) ↦ ground arith
      ]

table_error :
    (e : AllocationEvidence) {x : AllocationError}
    → allocate_routing_table e ≡ err x
    → Justifies e x
unfolding allocate_routing_table
table_error e {x} h =
    elim (Option-cases (first_free (table_used e) tun_routing_table_id candidates)) [
      | inl n ↦
          subst (Justifies e) {x = no_routing_table} (ground arith)
            (first_free-eq-none (table_used e) tun_routing_table_id candidates n)
      | inr (c, q) ↦ ground arith
    ]

mark_error :
    (e : AllocationEvidence) {x : AllocationError} → allocate_egress_mark e ≡ err x → Justifies e x
unfolding allocate_egress_mark
mark_error e {x} h = elim (Option-cases (first_free (mark_occupied e) tun_egress_mark candidates)) [
  | inl n ↦
      subst (Justifies e) {x = no_egress_mark} (ground arith)
        (first_free-eq-none (mark_occupied e) tun_egress_mark candidates n)
  | inr (c, q) ↦ ground arith
]

priority_unused :
    (k : ℕ) (rs : List AllocationRule) (c : ℕ)
    → All (λ r. k < r.priority) rs
    → c ≤ k
    → any (λ r. r.priority == c) rs ≡ false
priority_unused k [] c f l = refl
priority_unused k (r ∷ rs) c (a, f) l = ground (arith, priority_unused k rs c f l)

upper_priority_low :
    (upper : ℕ) (rs : List AllocationRule)
    → 2 ≤ upper
    → upper_priority upper rs ≤ 1
    → any (λ r. leb r.priority 2) rs ≡ true
unfolding upper_priority
upper_priority_low upper [] l m = ground arith
upper_priority_low upper (r ∷ rs) l m = elim (Bool-cases (leb r.priority 2)) [
  | inl b ↦ ground arith
  | inr b ↦ ground (
    arith,
    upper_priority_low (if leb r.priority upper then r.priority - 1 else upper) rs (ground arith) m,
  )
]

priorities_error :
    (e : AllocationEvidence) {x : AllocationError}
    → allocate_rule_priorities e ≡ err x
    → Justifies e x
unfolding allocate_rule_priorities priority_used
priorities_error e {x} h =
    let upper = upper_priority tun_rule_priority e.ipv4_policy_rules in
    elim (Bool-cases (leb 2 upper)) [
      | inl b ↦
          let rules =
            upper_priority_first upper tun_rule_priority e.ipv4_policy_rules (ground arith)
              (omega arith) in
          ground (
            arith,
            first_free_pair_free (priority_used e) upper
                (λ c l. priority_unused upper e.ipv4_policy_rules c rules l) (ground arith),
          )
      | inr b ↦
          subst (Justifies e) {x = no_priorities} (ground arith)
            (upper_priority_low tun_rule_priority e.ipv4_policy_rules (omega arith) (ground arith))
    ]

resources_error :
    (e : AllocationEvidence) (v : Result AllocationError Unit)
    (ra rt rn rk : Result AllocationError ℕ) {x : AllocationError}
    → validate_evidence e ≡ v
    → allocate_address e ≡ ra
    → allocate_routing_table e ≡ rt
    → allocate_rule_priorities e ≡ rn
    → allocate_egress_mark e ≡ rk
    → resources v ra rt rn rk ≡ err x
    → (validate_evidence e ≡ err x) ⊎ Justifies e x
resources_error e (ok _) (ok _) (ok _) (ok _) (ok _) ev ea et en ek h = cc
resources_error e (err _) ra rt rn rk ev ea et en ek h = inl (ev ∙ same_error h)
resources_error e (ok _) (err _) rt rn rk ev ea et en ek h =
    inr (address_error e (ea ∙ same_error h))
resources_error e (ok _) (ok _) (err _) rn rk ev ea et en ek h =
    inr (table_error e (et ∙ same_error h))
resources_error e (ok _) (ok _) (ok _) (err _) rk ev ea et en ek h =
    inr (priorities_error e (en ∙ same_error h))
resources_error e (ok _) (ok _) (ok _) (ok _) (err _) ev ea et en ek h =
    inr (mark_error e (ek ∙ same_error h))

-- An allocation fails only where the evidence's check fails with that error, every one of the
-- addresses, tables or marks of the pool is in use, or a rule of the host has a priority of at most
-- 2, so that no pair can precede it.
pub allocate_tun_resources-eq-err :
    (e : AllocationEvidence) {x : AllocationError}
    → allocate_tun_resources e ≡ err x
    → (validate_evidence e ≡ err x) ⊎ Justifies e x
unfolding allocate_tun_resources
allocate_tun_resources-eq-err e h =
    resources_error e (validate_evidence e) (allocate_address e) (allocate_routing_table e)
      (allocate_rule_priorities e) (allocate_egress_mark e) refl refl refl refl refl h
