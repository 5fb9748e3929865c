-- ===== src/Recovery/Conclusions.antt =====
-- When a cleanup removes the file of its transaction.
use podlaz.Common.{
  ◌≡◌, refl, ◌⊎◌, inl, inr, Bool, true, false, Option, none, some, List, [], ◌∷◌, ◌++◌, Str, All,
  all, arith, Bool-cases,
}
use podlaz.Transaction.Model.{Transaction, RollbackMetadata}
use podlaz.Recovery.Text.{CleanPath}
use podlaz.Recovery.Model.{
  Call, CleanupResult, Candidate, Host, stat_process, command, roll_back_nftables,
  roll_back_address, read_transaction, remove_transaction, read_directory, remove_all, remove,
  has_failed, has_skipped, has_recovered, has_failed_cleanup, has_skipped_cleanup,
}
use podlaz.Recovery.Metadata.{recovery_rollback_metadata}
use podlaz.Recovery.Phases.{removal_failed}
use podlaz.Recovery.Links.{LinkDecision, matched, absent_child_absent, blocked}
use podlaz.Recovery.Cleanup.{Phase, conclude, finish, preserve, gap_results}
use podlaz.Recovery.Legacy.{by_decision, cleanup_loaded}
use podlaz.Recovery.Allocation.{Allocation, session_rollback_metadata}
use podlaz.Recovery.Allocated.{
  go_on, stop_at_blocker, preserve_unproven, session_by_decision, cleanup_allocated,
}
use podlaz.Recovery.Authority.{
  IsLook, at_process, at_link, at_route, at_rule, at_transaction, at_directory, Grants, LinkGrants,
  ConfigGrants, after_processes,
}
use podlaz.Recovery.Loops.{processes-Keeps, gate-Keeps, finish_phases-Keeps, preserve-Keeps}
use podlaz.Recovery.Runs as Runs
use podlaz.Recovery.SessionRuns as SessionRuns

abbrev pub is_removal : Call → Bool
is_removal (remove_transaction _) = true
is_removal (stat_process _) = false
is_removal (command _ _) = false
is_removal (roll_back_nftables _) = false
is_removal (roll_back_address _ _) = false
is_removal (read_transaction _) = false
is_removal (read_directory _) = false
is_removal (remove_all _) = false
is_removal (remove _) = false

abbrev pub IsKept : Call → Type 0
IsKept c = is_removal c ≡ false

-- How a cleanup ends: it has not removed the file of a transaction, and not every result is a recovery;
-- or the removal of the file at `path` is its last call, the only one, and every result before the last
-- one is a recovery.
abbrev pub Ends : CleanPath → List CleanupResult × List Call → Type 0
Ends path (rs, t) =
    (All IsKept t × (all has_recovered rs ≡ false))
    ⊎ ((t' : List Call) × (before : List CleanupResult) × (last : CleanupResult) × (t
          ≡ remove_transaction path ∷ t')
        × All IsKept t'
        × (rs ≡ before ++ (last ∷ []))
        × (all has_recovered before ≡ true))

look-IsKept : (c : Call) → IsLook c → IsKept c
look-IsKept _ (at_process n) = refl
look-IsKept _ at_link = refl
look-IsKept _ (at_route cidr) = refl
look-IsKept _ (at_rule n) = refl
look-IsKept _ (at_transaction p) = refl
look-IsKept _ (at_directory p) = refl

IsKept-Grants :
    (a : Option Allocation) (tx : Transaction) (m : RollbackMetadata) → Grants IsKept a tx m
IsKept-Grants a tx m = record {
  grants_look = look-IsKept;
  grants_nftables = λ e plan i o p. refl;
  grants_rule = λ e args i d. refl;
  grants_route = λ e args i d. refl;
}

IsKept-LinkGrants : (m : RollbackMetadata) → LinkGrants IsKept m
IsKept-LinkGrants m = record {
  grants_dns = λ e i o. refl;
  grants_address = λ e b i o. refl;
  grants_tun = λ e i o. refl;
}

IsKept-ConfigGrants : (dir : CleanPath) (m : RollbackMetadata) → ConfigGrants IsKept dir m
IsKept-ConfigGrants dir m = record { grants_config = λ e i o. refl; grants_root = refl }

not_all_recovered :
    (rs : List CleanupResult) (r : CleanupResult)
    → has_recovered r ≡ false
    → all has_recovered (rs ++ (r ∷ [])) ≡ false
not_all_recovered [] r h = ground arith
not_all_recovered (x ∷ rs) r h = ground (arith, not_all_recovered rs r h)

recovered_or :
    (r : CleanupResult) → has_failed r ≡ false → has_skipped r ≡ false → has_recovered r ≡ true
recovered_or r f s = ground arith

all_recovered :
    (rs : List CleanupResult)
    → has_failed_cleanup rs ≡ false
    → has_skipped_cleanup rs ≡ false
    → all has_recovered rs ≡ true
all_recovered [] f s = refl
all_recovered (r ∷ rs) f s =
    ground (arith, all_recovered rs (ground arith) (ground arith), recovered_or r)

module _ (host : Host) (dir path : CleanPath) (candidate : Candidate) where
  conclude-Ends :
      (rs : List CleanupResult) (t : List Call)
      → All IsKept t
      → Ends path (conclude host dir path candidate rs t)
  unfolding conclude
  conclude-Ends rs t h = elim (Bool-cases (has_failed_cleanup rs)) [
    | inl e ↦ rw e (inl (h, not_all_recovered rs _ refl))
    | inr e ↦ elim (Bool-cases (has_skipped_cleanup rs)) [
      | inl s ↦ rw e (rw s (inl (h, not_all_recovered rs _ refl)))
      | inr s ↦ elim (Bool-cases (removal_failed (host.removes t path))) [
        | inl f ↦ rw e (rw s (rw f (inr (t, rs, _, refl, h, refl, all_recovered rs e s))))
        | inr f ↦ rw e (rw s (rw f (inr (t, rs, _, refl, h, refl, all_recovered rs e s))))
      ]
    ]
  ]

  finish-Ends :
      (tx : Transaction) (m : RollbackMetadata) (target : Str) (gaps : List Str)
      (processes results : List CleanupResult) (t : List Call)
      → All IsKept t
      → Ends path (finish host dir path candidate tx m target gaps processes results t)
  unfolding finish
  finish-Ends tx m target gaps processes results t h = conclude-Ends _ _ (
      finish_phases-Keeps IsKept host dir path candidate tx m gaps processes
        (results ++ gap_results target gaps) look-IsKept (λ _. IsKept-ConfigGrants dir m) t h)

  -- A run that keeps the file and says so in its last result.
  said-Ends :
      (rs : List CleanupResult) (r : CleanupResult) (t : List Call)
      → has_recovered r ≡ false
      → All IsKept t
      → Ends path (rs ++ (r ∷ []), t)
  said-Ends rs r t n h = inl (h, not_all_recovered rs r n)

  module _ (tx : Transaction) where
    by_decision-Ends :
        (m : RollbackMetadata) (gaps : List Str) (processes : List CleanupResult) (absent : Bool)
        (gate : Option CleanupResult) (d : LinkDecision) (t : List Call)
        → All IsKept t
        → Ends path (by_decision host dir path candidate tx m gaps processes absent gate d t)
    unfolding by_decision
    by_decision-Ends m gaps processes absent gate blocked t h = said-Ends _ _ _ refl (
        preserve-Keeps IsKept host dir path candidate tx m _ processes look-IsKept _ (
          Runs.independent-Keeps IsKept host dir path candidate tx m (IsKept-Grants none tx m) t h))
    by_decision-Ends m gaps processes absent gate absent_child_absent t h =
        finish-Ends tx m _ gaps processes _ _
          (Runs.independent-Keeps IsKept host dir path candidate tx m (IsKept-Grants none tx m) t h)
    by_decision-Ends m gaps processes absent gate matched t h =
        finish-Ends tx m _ gaps processes _ _ (
          Runs.matched-Keeps IsKept host dir path candidate tx m absent (IsKept-Grants none tx m)
            (IsKept-LinkGrants m) t h)

    loaded-Ends : Ends path (cleanup_loaded host dir path candidate tx [])
    unfolding cleanup_loaded
    loaded-Ends =
        let m = recovery_rollback_metadata tx in
        let after = after_processes host m [] in
        by_decision-Ends m _ after.0 _ _ _ _ (
          gate-Keeps IsKept host m _ _ look-IsKept after.1
            (processes-Keeps IsKept host m.child_processes look-IsKept [] tt))

    module _ (a : Allocation) where
      stop-Ends :
          (m : RollbackMetadata) (processes results : List CleanupResult) (t : List Call)
          → All IsKept t
          → Ends path (stop_at_blocker host dir path candidate tx a m processes results t)
      unfolding stop_at_blocker
      stop-Ends m processes results t h =
          let (rs, t') = preserve host dir path candidate tx m results processes t in
          elim (Bool-cases (has_failed_cleanup rs)) [
            | inl e ↦ said-Ends rs _ t' (ground (arith, e)) (
                preserve-Keeps IsKept host dir path candidate tx m results processes look-IsKept t
                  h)
            | inr e ↦ said-Ends rs _ t' (ground (arith, e)) (
                preserve-Keeps IsKept host dir path candidate tx m results processes look-IsKept t
                  h)
          ]

      unproven-Ends :
          (m : RollbackMetadata) (processes : List CleanupResult) (gate : Option CleanupResult)
          (rs : List CleanupResult) (t : List Call)
          → All IsKept t
          → Ends path (preserve_unproven host dir path candidate tx a m processes gate rs t)
      unfolding preserve_unproven
      unproven-Ends m processes gate rs t h =
          said-Ends _ _ _ refl
            (preserve-Keeps IsKept host dir path candidate tx m _ processes look-IsKept t h)

      either-Ends :
          (b : Bool) (f g : Phase) (t : List Call)
          → Ends path (f t)
          → Ends path (g t)
          → Ends path (go_on b f g t)
      unfolding go_on
      either-Ends true f g t k l = k
      either-Ends false f g t k l = l

      session_by_decision-Ends :
          (m : RollbackMetadata) (gaps : List Str) (processes : List CleanupResult) (absent : Bool)
          (gate : Option CleanupResult) (d : LinkDecision) (t : List Call)
          → All IsKept t
          → Ends path
              (session_by_decision host dir path candidate tx a m gaps processes absent gate d t)
      unfolding session_by_decision
      session_by_decision-Ends m gaps processes absent gate blocked t h =
          let k =
            SessionRuns.independent-Keeps IsKept host dir path candidate tx a m
              (IsKept-Grants (some a) tx m) t h in
          either-Ends _ _ _ _ (stop-Ends m processes _ _ k) (unproven-Ends m processes gate _ _ k)
      session_by_decision-Ends m gaps processes absent gate absent_child_absent t h =
          let k =
            SessionRuns.independent-Keeps IsKept host dir path candidate tx a m
              (IsKept-Grants (some a) tx m) t h in
          either-Ends _ _ _ _ (stop-Ends m processes _ _ k)
            (finish-Ends tx m _ gaps processes _ _ k)
      session_by_decision-Ends m gaps processes absent gate matched t h =
          let k =
            SessionRuns.matched-Keeps IsKept host dir path candidate tx a m absent
              (IsKept-Grants (some a) tx m) (IsKept-LinkGrants m) t h in
          either-Ends _ _ _ _ (stop-Ends m processes _ _ k)
            (finish-Ends tx m _ gaps processes _ _ k)

      allocated-Ends : Ends path (cleanup_allocated host dir path candidate tx a [])
      unfolding cleanup_allocated
      allocated-Ends =
          let m = session_rollback_metadata a tx in
          let after = after_processes host m [] in
          session_by_decision-Ends m _ after.0 _ _ _ _ (
            gate-Keeps IsKept host m _ _ look-IsKept after.1
              (processes-Keeps IsKept host m.child_processes look-IsKept [] tt))

-- Whatever the host answers, either executor removes the file of a transaction at most once, as its last
-- call, and only when every other result is a recovery; when it keeps the file, some result is no
-- recovery.
pub cleanup-Ends :
    (host : Host) (dir path : CleanPath) (candidate : Candidate) (tx : Transaction) (a : Allocation)
    → Ends path (cleanup_loaded host dir path candidate tx [])
      × Ends path (cleanup_allocated host dir path candidate tx a [])
cleanup-Ends host dir path candidate tx a =
    (loaded-Ends host dir path candidate tx, allocated-Ends host dir path candidate tx a)
