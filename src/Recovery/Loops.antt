-- ===== src/Recovery/Loops.antt =====
-- The calls of the phases, of the gate and of the end of a cleanup.
use mathlib.Core.List.{Memᴰ}
use podlaz.Common.{
  ◌≡◌, refl, Bool, true, false, not, ◌||◌, Option, none, some, List, [], ◌∷◌, ◌++◌, Str, text, All,
  elem, any, arith, Bool-cases, inl, inr, is_empty,
}
use podlaz.Transaction.Model.{
  Transaction, RollbackMetadata, ChildProcessRollback, NftablesRollback, GeneratedConfigRollback,
}
use podlaz.Recovery.Text.{CleanPath, clean}
use podlaz.Recovery.Model.{
  Call, CleanupResult, Candidate, Message, Host, FirewallPlan, Listing, no_directory, unreadable,
  has_entries, roll_back_nftables, read_directory, remove_all, remove, remove_transaction,
  has_failed_cleanup, has_skipped_cleanup, cleanup_phase_blocked, skipped, ambiguous_target,
  resource, nftables_table, has_failed, has_skipped,
}
use podlaz.Recovery.Nftables.{exact_nftables_rollback_plan}
use podlaz.Recovery.Deletes.{is_unrecorded_route, is_unrecorded_step, priority_of}
use podlaz.Recovery.Metadata.{desired_policy_rule_rollback}
use podlaz.Recovery.Phases.{
  process_result, rollback_child_process_results, nftables_planned, rollback_nftables_results,
  config_refusal, generated_dir, preserve_generated_config_results, remove_listed_root,
  remove_empty_generated_root, checked_config, config_result, inspected_route, inspected_step,
  inspect_unrecorded_desired_main_state, each, removal_failed, preserved_config,
}
use podlaz.Recovery.Links.{
  LinkIdentity, requires_link_identity, expected_gate, rollback_link_identity_gate,
}
use podlaz.Recovery.Cleanup.{
  only_results, in_turn, conclude, config_branch, config_phase, finish, preserve, gap_results,
}
use podlaz.Recovery.Keeping.{Keeps, each-Keeps, each_if-Keeps, in_turn-Keeps}
use podlaz.Recovery.Authority.{
  IsLook, at_link, at_route, at_rule, at_directory, is_own_nftables, ConfigGrants,
}
use podlaz.Recovery.Steps.{process-Keeps}

any-append :
    (p : CleanupResult → Bool) (xs ys : List CleanupResult)
    → any p (xs ++ ys) ≡ (any p xs || any p ys)
any-append p [] ys = refl
any-append p (x ∷ xs) ys = ground (arith, any-append p xs ys)

pub blocked-append :
    (xs ys : List CleanupResult)
    → cleanup_phase_blocked (xs ++ ys) ≡ (cleanup_phase_blocked xs || cleanup_phase_blocked ys)
blocked-append xs ys = ground (arith, any-append has_failed xs ys, any-append has_skipped xs ys)

blocked-left :
    (xs ys : List CleanupResult)
    → cleanup_phase_blocked (xs ++ ys) ≡ false
    → cleanup_phase_blocked xs ≡ false
blocked-left xs ys h = ground (arith, blocked-append xs ys)

pub blocked-right :
    (xs ys : List CleanupResult)
    → cleanup_phase_blocked (xs ++ ys) ≡ false
    → cleanup_phase_blocked ys ≡ false
blocked-right xs ys h = ground (arith, blocked-append xs ys)

module _ (P : Call → Type 0) (host : Host) where
  pub processes-Keeps :
      (ps : List ChildProcessRollback)
      → ((c : Call) → IsLook c → P c)
      → Keeps P (rollback_child_process_results host ps)
  unfolding rollback_child_process_results
  processes-Keeps ps g = each-Keeps P (process_result host) ps (λ p _. process-Keeps P host p g)

  planned-Keeps :
      (c : Candidate) (o : Option FirewallPlan)
      → ((plan : FirewallPlan) → o ≡ some plan → P (roll_back_nftables plan))
      → Keeps P (nftables_planned host c o)
  unfolding nftables_planned
  planned-Keeps c none g t h = h
  planned-Keeps c (some plan) g t h = (g plan refl, h)

  pub nftables-Keeps :
      (tx : Transaction) (seen : List Str) (es : List NftablesRollback)
      → ((e : NftablesRollback) (plan : FirewallPlan)
          → Memᴰ e es
          → is_own_nftables e ≡ true
          → exact_nftables_rollback_plan tx e ≡ some plan
          → P (roll_back_nftables plan))
      → Keeps P (rollback_nftables_results host tx seen es)
  unfolding rollback_nftables_results
  nftables-Keeps tx seen [] g t h = h
  nftables-Keeps tx seen (e ∷ es) g t h =
      let key = e.family ++ (text " " ++ e.table) in
      let c = resource nftables_table key in
      let rest : (seen : List Str) → Keeps P (rollback_nftables_results host tx seen es) =
        λ seen. nftables-Keeps tx seen es (λ x p m. g x p (Memᴰ.tail m)) in
      let step = nftables_planned host c (exact_nftables_rollback_plan tx e) in
      elim (is_own_nftables e)
          as (λ b.
            is_own_nftables e ≡ b
            → All P
                (elim b as (λ _. List CleanupResult × List Call) [
                  | false ↦
                      let (rs, t') = rollback_nftables_results host tx seen es t in
                      (skipped c ambiguous_target ∷ rs, t')
                  | true ↦ elim (elem key seen) as (λ _. List CleanupResult × List Call) [
                    | true ↦ rollback_nftables_results host tx seen es t
                    | false ↦
                        let (r, t') = step t in
                        let (rs, t'') = rollback_nftables_results host tx (key ∷ seen) es t' in
                        (r ∷ rs, t'')
                  ]
                ]).1) [
                  | false ↦ λ _. rest seen t h
                  | true ↦ λ y.
                      elim (elem key seen)
                        as (λ b.
                          All P
                            (elim b as (λ _. List CleanupResult × List Call) [
                              | true ↦ rollback_nftables_results host tx seen es t
                              | false ↦
                                  let (r, t') = step t in
                                  let (rs, t'') =
                                    rollback_nftables_results host tx (key ∷ seen) es t' in
                                  (r ∷ rs, t'')
                            ]).1) [
                              | true ↦ rest seen t h
                              | false ↦ rest (key ∷ seen) (step t).1 (
                                  planned-Keeps c (exact_nftables_rollback_plan tx e)
                                    (λ plan q. g e plan (Memᴰ.head refl) y q) t h)
                            ]
                ]
        refl

  pub preserved-Keeps :
      (dir : CleanPath) (es : List GeneratedConfigRollback)
      → Keeps P (preserve_generated_config_results dir es)
  unfolding preserve_generated_config_results preserved_config
  preserved-Keeps dir es = each-Keeps P (preserved_config dir) es (λ e _ t h. h)

  pub inspected-Keeps :
      (tx : Transaction)
      → ((c : Call) → IsLook c → P c)
      → Keeps P (inspect_unrecorded_desired_main_state host tx)
  unfolding inspect_unrecorded_desired_main_state inspected_route inspected_step
  inspected-Keeps tx g t h =
      each_if-Keeps P (is_unrecorded_step tx.rollback) (inspected_step host) tx.desired_plan.steps
        (λ s _ t h. (g _ (at_rule (priority_of (desired_policy_rule_rollback s))), h)) _
        (each_if-Keeps P (is_unrecorded_route tx.rollback) (inspected_route host)
          tx.desired_plan.routes (λ r _ t h. (g _ (at_route r.cidr), h)) t h)

  listed-Keeps :
      (root : CleanPath) (l : Listing)
      → ((c : Call) → IsLook c → P c)
      → P (remove root)
      → Keeps P (remove_listed_root host root l)
  unfolding remove_listed_root
  listed-Keeps root no_directory g r t h = h
  listed-Keeps root unreadable g r t h = h
  listed-Keeps root (has_entries true) g r t h = h
  listed-Keeps root (has_entries false) g r t h =
      elim (Bool-cases (removal_failed (host.removes t root))) [
        | inl e ↦ rw e (g _ (at_directory root), (r, h))
        | inr e ↦ rw e (r, h)
      ]

  root-Keeps :
      (dir : CleanPath)
      → ((c : Call) → IsLook c → P c)
      → P (remove (generated_dir dir))
      → Keeps P (remove_empty_generated_root host dir)
  unfolding remove_empty_generated_root
  root-Keeps dir g r t h =
      let root = generated_dir dir in
      let h' : All P (read_directory root ∷ t) = (g (read_directory root) (at_directory root), h) in
      listed-Keeps root (host.directory t root) g r (read_directory root ∷ t) h'

  checked-Keeps :
      (dir : CleanPath) (e : GeneratedConfigRollback) (o : Option Message)
      → ((c : Call) → IsLook c → P c)
      → (o ≡ none → P (remove_all (clean e.path)))
      → P (remove (generated_dir dir))
      → Keeps P (checked_config host dir e o)
  unfolding checked_config
  checked-Keeps dir e (some m) g a r t h = h
  checked-Keeps dir e none g a r t h =
      elim (Bool-cases (removal_failed (host.removes t (clean e.path)))) [
        | inl f ↦ rw f (a refl, h)
        | inr f ↦ rw f (root-Keeps dir g r (remove_all (clean e.path) ∷ t) (a refl, h))
      ]

  pub configs-Keeps :
      (dir : CleanPath) (m : RollbackMetadata)
      → ((c : Call) → IsLook c → P c)
      → ConfigGrants P dir m
      → Keeps P (each (config_result host dir) m.generated_configs)
  unfolding config_result
  configs-Keeps dir m g k =
      each-Keeps P (config_result host dir) m.generated_configs
        (λ e i. checked-Keeps dir e (config_refusal dir e) g (k.grants_config e i) k.grants_root)

  expected-Keeps :
      (absent : Bool) (o : Option LinkIdentity)
      → ((c : Call) → IsLook c → P c)
      → Keeps P (expected_gate host absent o)
  unfolding expected_gate
  expected-Keeps absent none g t h = h
  expected-Keeps absent (some i) g t h = (g _ at_link, h)

  pub gate-Keeps :
      (m : RollbackMetadata) (o : Option LinkIdentity) (absent : Bool)
      → ((c : Call) → IsLook c → P c)
      → Keeps P (rollback_link_identity_gate host m o absent)
  unfolding rollback_link_identity_gate
  gate-Keeps m o absent g t h = elim (Bool-cases (requires_link_identity m)) [
    | inl e ↦ rw e (expected-Keeps absent o g t h)
    | inr e ↦ rw e h
  ]

  module _ (dir path : CleanPath) (candidate : Candidate) where
    conclude-Keeps :
        (rs : List CleanupResult)
        → (cleanup_phase_blocked rs ≡ false → P (remove_transaction path))
        → Keeps P (conclude host dir path candidate rs)
    unfolding conclude
    conclude-Keeps rs g t h = elim (Bool-cases (has_failed_cleanup rs)) [
      | inl e ↦ rw e h
      | inr e ↦ elim (Bool-cases (has_skipped_cleanup rs)) [
        | inl s ↦ rw e (rw s h)
        | inr s ↦ elim (Bool-cases (removal_failed (host.removes t path))) [
          | inl f ↦ rw e (rw s (rw f (g (ground arith), h)))
          | inr f ↦ rw e (rw s (rw f (g (ground arith), h)))
        ]
      ]
    ]

    config_branch-Keeps :
        (b : Bool) (m : RollbackMetadata)
        → ((c : Call) → IsLook c → P c)
        → (b ≡ false → ConfigGrants P dir m)
        → Keeps P (config_branch host dir path candidate b m)
    unfolding config_branch
    config_branch-Keeps true m g k t h = preserved-Keeps dir m.generated_configs t h
    config_branch-Keeps false m g k t h = configs-Keeps dir m g (k refl) t h

    config_phase-Keeps :
        (gaps : List Str) (processes : List CleanupResult) (m : RollbackMetadata)
        → ((c : Call) → IsLook c → P c)
        → ((not (is_empty gaps) || cleanup_phase_blocked processes) ≡ false → ConfigGrants P dir m)
        → Keeps P (config_phase host dir path candidate gaps processes m)
    unfolding config_phase
    config_phase-Keeps gaps processes m g k =
        config_branch-Keeps (not (is_empty gaps) || cleanup_phase_blocked processes) m g k

    pub finish_phases-Keeps :
        (tx : Transaction) (m : RollbackMetadata) (gaps : List Str)
        (processes results : List CleanupResult)
        → ((c : Call) → IsLook c → P c)
        → ((not (is_empty gaps) || cleanup_phase_blocked processes) ≡ false → ConfigGrants P dir m)
        → Keeps P (
            in_turn (
              only_results results
              ∷ config_phase host dir path candidate gaps processes m
              ∷ inspect_unrecorded_desired_main_state host tx
              ∷ []))
    finish_phases-Keeps tx m gaps processes results g k =
        in_turn-Keeps P _
          ((λ t h. h), (config_phase-Keeps gaps processes m g k, (inspected-Keeps tx g, tt)))

    pub finish-Keeps :
        (tx : Transaction) (m : RollbackMetadata) (target : Str) (gaps : List Str)
        (processes results : List CleanupResult)
        → ((c : Call) → IsLook c → P c)
        → ((not (is_empty gaps) || cleanup_phase_blocked processes) ≡ false → ConfigGrants P dir m)
        → (cleanup_phase_blocked results ≡ false → P (remove_transaction path))
        → Keeps P (finish host dir path candidate tx m target gaps processes results)
    unfolding finish in_turn
    finish-Keeps tx m target gaps processes results g k r t h =
        let gap = gap_results target gaps in
        let more =
          in_turn
            (config_phase host dir path candidate gaps processes m
              ∷ inspect_unrecorded_desired_main_state host tx
              ∷ [])
            t in
        conclude-Keeps ((results ++ gap) ++ more.0)
          (λ b. r (blocked-left results gap (blocked-left (results ++ gap) more.0 b))) _
          (finish_phases-Keeps tx m gaps processes (results ++ gap) g k t h)

    pub preserve-Keeps :
        (tx : Transaction) (m : RollbackMetadata) (results processes : List CleanupResult)
        → ((c : Call) → IsLook c → P c)
        → Keeps P (preserve host dir path candidate tx m results processes)
    unfolding preserve
    preserve-Keeps tx m results processes g =
        in_turn-Keeps P _
          ((λ t h. h), (preserved-Keeps dir m.generated_configs, (inspected-Keeps tx g, tt)))
