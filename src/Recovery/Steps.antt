-- ===== src/Recovery/Steps.antt =====
-- The calls of one entry of a phase.
use podlaz.Common.{
  ◌≡◌, refl, Bool, true, not, Option, none, some, List, Str, text, arith, inl, inr, Bool-cases, leb,
  ◌==◌, ◌||◌, ◌&&◌, str_eq, is_empty, trim_space, if◌then◌else◌,
}
use podlaz.Transaction.Model.{
  ChildProcessRollback, DnsRollback, TunRollback, TunAddressRollback, PolicyRuleRollback,
  RouteRollback,
}
use podlaz.Recovery.Model.{
  Call, Candidate, Message, Host, stat_process, command, roll_back_address, run_delete, recovered,
  managed_interface,
}
use podlaz.Recovery.Owners.{
  owner_policy_rule, owner_route, owned_rollback_metadata, is_safe_main_rule, is_safe_main_route,
  is_managed_table, main_routing_table,
}
use podlaz.Recovery.Deletes.{
  is_owned, revert_args, link_delete_args, tun_address_refusal, rule_delete_args,
  main_rule_delete_args, route_delete_args, main_route_delete_args,
}
use podlaz.Recovery.Phases.{
  process_result, dns_result, policy_rule_result, route_result, address_checked, address_result,
  tun_result,
}
use podlaz.Recovery.Exact.{
  session_rule_delete_args-AllocatedRule, session_route_delete_args-AllocatedRoute,
}
use podlaz.Recovery.Allocation.{Allocation, session_rule_delete_args, session_route_delete_args}
use podlaz.Recovery.Allocated.{delete_exact, session_rule_result, session_route_result}
use podlaz.Recovery.Keeping.{Keeps}
use podlaz.Recovery.Authority.{
  IsLook, at_process, is_own_dns, is_own_tun, DeletesRule, DeletesRoute,
}

module _ (P : Call → Type 0) (host : Host) where
  pub process-Keeps :
      (p : ChildProcessRollback) → ((c : Call) → IsLook c → P c) → Keeps P (process_result host p)
  unfolding process_result
  process-Keeps p g t h = elim (Bool-cases (not (is_owned p.owner))) [
    | inl e ↦ rw e h
    | inr e ↦ elim (Bool-cases (leb p.pid 1)) [
      | inl e' ↦ rw e (rw e' h)
      | inr e' ↦ rw e (rw e' (g (stat_process p.pid) (at_process p.pid), h))
    ]
  ]

  pub dns-Keeps :
      (e : DnsRollback)
      → (is_own_dns e ≡ true → P (command (text "resolvectl") revert_args))
      → Keeps P (dns_result host e)
  unfolding dns_result
  dns-Keeps e g t h = elim (Bool-cases (is_own_dns e)) [ inl c ↦ rw c (g c, h) | inr c ↦ rw c h ]

  pub tun-Keeps :
      (e : TunRollback)
      → (is_own_tun e ≡ true → P (command (text "ip") link_delete_args))
      → Keeps P (tun_result host e)
  unfolding tun_result run_delete
  tun-Keeps e g t h = elim (Bool-cases (is_own_tun e)) [ inl c ↦ rw c (g c, h) | inr c ↦ rw c h ]

  address_checked-Keeps :
      (c : Candidate) (e : TunAddressRollback) (b : Bool) (r : Option Message)
      → (r ≡ none → P (roll_back_address e b))
      → Keeps P (address_checked host c e b r)
  unfolding address_checked
  address_checked-Keeps c e b none g t h = (g refl, h)
  address_checked-Keeps c e b (some m) g t h = h

  pub address-Keeps :
      (e : TunAddressRollback) (b : Bool)
      → (tun_address_refusal e ≡ none → P (roll_back_address e b))
      → Keeps P (address_result host b e)
  unfolding address_result
  address-Keeps e b g = address_checked-Keeps _ e b (tun_address_refusal e) g

  pub rule-Keeps :
      (e : PolicyRuleRollback)
      → ((args : List Str) → DeletesRule none e args → P (command (text "ip") args))
      → Keeps P (policy_rule_result host e)
  unfolding policy_rule_result run_delete
  rule-Keeps e g t h = elim (Bool-cases (not (owned_rollback_metadata e.owner owner_policy_rule))) [
    | inl c ↦ rw c h
    | inr c ↦ elim (Bool-cases (is_safe_main_rule e)) [
      | inl s ↦ rw c (rw s (g (main_rule_delete_args e) (ground arith, inl (s, refl)), h))
      | inr s ↦ elim (Bool-cases (not (is_managed_table e.table))) [
        | inl n ↦ rw c (rw s (rw n h))
        | inr n ↦ elim (Bool-cases (e.priority == 0)) [
          | inl z ↦ rw c (rw s (rw n (rw z h)))
          | inr z ↦ rw c (
              rw s
                (rw n (rw z (g (rule_delete_args e) (ground arith, inr (ground arith, refl)), h))))
        ]
      ]
    ]
  ]

  route_named-Keeps :
      (e : RouteRollback) (c : Candidate)
      → P (command (text "ip") (route_delete_args e))
      → Keeps P (λ t.
        if is_empty (trim_space e.cidr)
        then (recovered c, t)
        else run_delete host (text "ip") (route_delete_args e) c t)
  unfolding run_delete
  route_named-Keeps e c g t h = elim (Bool-cases (is_empty (trim_space e.cidr))) [
    | inl z ↦ rw z h
    | inr z ↦ rw z (g, h)
  ]

  pub route-Keeps :
      (e : RouteRollback)
      → ((args : List Str) → DeletesRoute none e args → P (command (text "ip") args))
      → Keeps P (route_result host e)
  unfolding route_result run_delete
  route-Keeps e g t h = elim (Bool-cases (not (owned_rollback_metadata e.owner owner_route))) [
    | inl c ↦ rw c h
    | inr c ↦ elim (Bool-cases (is_safe_main_route e)) [
      | inl s ↦ rw c (rw s (g (main_route_delete_args e) (ground arith, inl (s, refl)), h))
      | inr s ↦
          elim (Bool-cases
            (str_eq (trim_space e.table) main_routing_table || not (is_managed_table e.table))) [
              | inl n ↦ rw c (rw s (rw n h))
              | inr n ↦
                  elim (Bool-cases
                    (not (is_empty (trim_space e.dev)) && not (str_eq e.dev managed_interface))) [
                      | inl v ↦ rw c (rw s (rw n (rw v h)))
                      | inr v ↦ rw c (
                          rw s (
                            rw n (
                              rw v (
                                route_named-Keeps e _
                                  (g (route_delete_args e) (ground arith, inr (ground arith, refl)))
                                  t h))))
                    ]
            ]
    ]
  ]

  module _ (a : Allocation) where
    delete_exact-Keeps :
        (c : Candidate) (o : Option (List Str))
        → ((args : List Str) → o ≡ some args → P (command (text "ip") args))
        → Keeps P (delete_exact host a c o)
    unfolding delete_exact run_delete
    delete_exact-Keeps c none g t h = h
    delete_exact-Keeps c (some args) g t h = (g args refl, h)

    pub session_rule-Keeps :
        (e : PolicyRuleRollback)
        → ((args : List Str) → DeletesRule (some a) e args → P (command (text "ip") args))
        → Keeps P (session_rule_result host a e)
    unfolding session_rule_result
    session_rule-Keeps e g t h =
        elim (Bool-cases (owned_rollback_metadata e.owner owner_policy_rule)) [
          | inl c ↦ rw c (
              delete_exact-Keeps _ (session_rule_delete_args a e)
                (λ args x. g args (c, session_rule_delete_args-AllocatedRule a e args x)) t h)
          | inr c ↦ rw c h
        ]

    pub session_route-Keeps :
        (e : RouteRollback)
        → ((args : List Str) → DeletesRoute (some a) e args → P (command (text "ip") args))
        → Keeps P (session_route_result host a e)
    unfolding session_route_result
    session_route-Keeps e g t h = elim (Bool-cases (owned_rollback_metadata e.owner owner_route)) [
      | inl c ↦ rw c (
          delete_exact-Keeps _ (session_route_delete_args a e)
            (λ args x. g args (c, session_route_delete_args-AllocatedRoute a e args x)) t h)
      | inr c ↦ rw c h
    ]
