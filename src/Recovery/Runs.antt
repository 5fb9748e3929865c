-- ===== src/Recovery/Runs.antt =====
-- The calls of a whole cleanup, by either executor.
use mathlib.Core.List.{Memᴰ}
use podlaz.Common.{
  ◌≡◌, refl, Bool, true, false, not, ◌||◌, Option, none, some, List, [], ◌∷◌, ◌++◌, Str, All, arith,
  Bool-cases, inl, inr, is_empty,
}
use podlaz.Transaction.Model.{Transaction, RollbackMetadata}
use podlaz.Recovery.Text.{CleanPath}
use podlaz.Recovery.Model.{
  Call, CleanupResult, Candidate, Host, remove_transaction, cleanup_phase_blocked,
}
use podlaz.Recovery.Owners.{is_link_dependent_route}
use podlaz.Recovery.Metadata.{recovery_rollback_metadata, applying_desired_ownership_gaps}
use podlaz.Recovery.Phases.{
  dns_result, policy_rule_result, route_result, address_result, tun_result,
}
use podlaz.Recovery.Links.{
  LinkIdentity, LinkDecision, matched, absent_child_absent, blocked, requires_link_identity,
  gate_decision, expected_gate, rollback_link_identity_gate, exact_link_identity,
  tracked_child_absence_proven,
}
use podlaz.Recovery.Cleanup.{
  in_turn, gate_results, missing_link_scoped_rollback_results, missing_link_route_results,
}
use podlaz.Recovery.Legacy.{independent_phases, matched_phases, by_decision, cleanup_loaded}
use podlaz.Recovery.Keeping.{Keeps, each-Keeps, each_if-Keeps, in_turn-Keeps}
use podlaz.Recovery.Authority.{IsProvenLink, after_processes, Grants, LinkGrants, ConfigGrants}
use podlaz.Recovery.Steps.{dns-Keeps, rule-Keeps, route-Keeps, address-Keeps, tun-Keeps}
use podlaz.Recovery.Loops.{
  processes-Keeps, nftables-Keeps, gate-Keeps, finish-Keeps, preserve-Keeps, blocked-right,
}

expected_gate-matched :
    (host : Host) (absent : Bool) (o : Option LinkIdentity) (t : List Call)
    → (expected_gate host absent o t).0.1 ≡ matched
    → IsProvenLink host o t
unfolding expected_gate gate_decision
expected_gate-matched host absent none t h = cc
expected_gate-matched host absent (some i) t h = (i, refl, ground arith)

pub gate-matched :
    (host : Host) (m : RollbackMetadata) (o : Option LinkIdentity) (absent : Bool) (t : List Call)
    → requires_link_identity m ≡ true
    → (rollback_link_identity_gate host m o absent t).0.1 ≡ matched
    → IsProvenLink host o t
unfolding rollback_link_identity_gate
gate-matched host m o absent t r h = expected_gate-matched host absent o t (ground (arith, r, h))

no_member : {A : Type 0} {x : A} (xs : List A) → Memᴰ x xs → is_empty xs ≡ true → ⊥
no_member [] m h = elim m [ ]
no_member (y ∷ ys) (Memᴰ.head e) h = cc
no_member (y ∷ ys) (Memᴰ.tail m) h = cc

pub LinkGrants-none :
    (P : Call → Type 0) (m : RollbackMetadata) → requires_link_identity m ≡ false → LinkGrants P m
unfolding requires_link_identity
LinkGrants-none P m r = record {
  grants_dns = λ e i _. absurd (no_member m.dns i (ground arith));
  grants_address = λ e _ i _. absurd (no_member m.tun_addresses i (ground arith));
  grants_tun = λ e i _. absurd (no_member m.tun i (ground arith));
}

-- The results about the processes are among those behind a link that is gone.
pub behind_link :
    (rs missing : List CleanupResult) (m : RollbackMetadata) (gate processes : List CleanupResult)
    → cleanup_phase_blocked
        (rs ++ (missing ++ (gate ++ (missing_link_scoped_rollback_results m ++ processes))))
      ≡ false
    → cleanup_phase_blocked processes ≡ false
behind_link rs missing m gate processes b =
    let scoped = missing_link_scoped_rollback_results m in
    blocked-right scoped processes (
      blocked-right gate (scoped ++ processes) (
        blocked-right missing (gate ++ (scoped ++ processes))
          (blocked-right rs (missing ++ (gate ++ (scoped ++ processes))) b)))

module _ (P : Call → Type 0) (host : Host) (dir path : CleanPath) (candidate : Candidate)
    (tx : Transaction) where
  pub independent-Keeps :
      (m : RollbackMetadata)
      → Grants P none tx m
      → Keeps P (in_turn (independent_phases host dir path candidate tx m))
  unfolding independent_phases
  independent-Keeps m g = in_turn-Keeps P _ (
    nftables-Keeps P host tx [] m.nftables g.grants_nftables,
    (
      each-Keeps P (policy_rule_result host) m.policy_rules
          (λ e i. rule-Keeps P host e (λ args x. g.grants_rule e args i x)),
      (
        each_if-Keeps P (λ r. not (is_link_dependent_route r)) (route_result host) m.routes
            (λ e i. route-Keeps P host e (λ args x. g.grants_route e args i x)),
        tt,
      ),
    ),
  )

  pub matched-Keeps :
      (m : RollbackMetadata) (absent : Bool)
      → Grants P none tx m
      → LinkGrants P m
      → Keeps P (in_turn (matched_phases host dir path candidate tx absent m))
  unfolding matched_phases
  matched-Keeps m absent g l = in_turn-Keeps P _ (
    nftables-Keeps P host tx [] m.nftables g.grants_nftables,
    (
      each-Keeps P (dns_result host) m.dns (λ e i. dns-Keeps P host e (l.grants_dns e i)),
      (
        each-Keeps P (policy_rule_result host) m.policy_rules
            (λ e i. rule-Keeps P host e (λ args x. g.grants_rule e args i x)),
        (
          each-Keeps P (route_result host) m.routes
              (λ e i. route-Keeps P host e (λ args x. g.grants_route e args i x)),
          (
            each-Keeps P (address_result host absent) m.tun_addresses
                (λ e i. address-Keeps P host e absent (l.grants_address e absent i)),
            (
              each-Keeps P (tun_result host) m.tun (λ e i. tun-Keeps P host e (l.grants_tun e i)),
              tt,
            ),
          ),
        ),
      ),
    ),
  )

  by_decision-Keeps :
      (m : RollbackMetadata) (gaps : List Str) (processes : List CleanupResult) (absent : Bool)
      (gate : Option CleanupResult) (d : LinkDecision)
      → Grants P none tx m
      → (d ≡ matched → LinkGrants P m)
      → ((not (is_empty gaps) || cleanup_phase_blocked processes) ≡ false → ConfigGrants P dir m)
      → (cleanup_phase_blocked processes ≡ false → P (remove_transaction path))
      → Keeps P (by_decision host dir path candidate tx m gaps processes absent gate d)
  unfolding by_decision
  by_decision-Keeps m gaps processes absent gate blocked g l k r t h =
      preserve-Keeps P host dir path candidate tx m _ processes g.grants_look _
        (independent-Keeps m g t h)
  by_decision-Keeps m gaps processes absent gate absent_child_absent g l k r t h =
      let rs = (in_turn (independent_phases host dir path candidate tx m) t).0 in
      let missing = missing_link_route_results is_link_dependent_route m.routes in
      finish-Keeps P host dir path candidate tx m _ gaps processes _ g.grants_look k
        (λ b. r (behind_link rs missing m (gate_results gate) processes b)) _
        (independent-Keeps m g t h)
  by_decision-Keeps m gaps processes absent gate matched g l k r t h =
      finish-Keeps P host dir path candidate tx m _ gaps processes _ g.grants_look k
        (λ b. r (
          blocked-right (in_turn (matched_phases host dir path candidate tx absent m) t).0 processes
            b))
        _ (matched-Keeps m absent g (l refl) t h)

  pub cleanup_loaded-Keeps :
      (t : List Call)
      → (let m = recovery_rollback_metadata tx in
          let after = after_processes host m t in
          Grants P none tx m
          → (IsProvenLink host (exact_link_identity m tx.applied_steps) after.1 → LinkGrants P m)
          → ((not (is_empty (applying_desired_ownership_gaps tx)) || cleanup_phase_blocked after.0)
                ≡ false
              → ConfigGrants P dir m)
          → (cleanup_phase_blocked after.0 ≡ false → P (remove_transaction path))
          → All P t
          → All P (cleanup_loaded host dir path candidate tx t).1)
  unfolding cleanup_loaded
  cleanup_loaded-Keeps t g l k r h =
      let m = recovery_rollback_metadata tx in
      let after = after_processes host m t in
      let expected = exact_link_identity m tx.applied_steps in
      let absent = tracked_child_absence_proven m.child_processes after.0 in
      by_decision-Keeps m _ after.0 absent _ _ g
        (λ e. elim (Bool-cases (requires_link_identity m)) [
          | inl q ↦ l (gate-matched host m expected absent after.1 q e)
          | inr q ↦ LinkGrants-none P m q
        ])
        k r _
        (gate-Keeps P host m expected absent g.grants_look after.1
          (processes-Keeps P host m.child_processes g.grants_look t h))
