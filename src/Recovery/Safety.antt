-- ===== src/Recovery/Safety.antt =====
-- What a recovery may do to the host, whatever the host answers.
use podlaz.Common.{
  ◌≡◌, refl, Bool, true, false, Option, none, some, List, [], ◌∷◌, ◌++◌, Str, All, arith, is_empty,
  str_eq,
}
use podlaz.Transaction.Model.{
  Transaction, RollbackMetadata, ChildProcessRollback, TunAddressDesiredState,
}
use podlaz.Recovery.Text.{CleanPath}
use podlaz.Recovery.Model.{Call, Candidate, Host, cleanup_phase_blocked}
use podlaz.Recovery.Metadata.{
  recovery_rollback_metadata, project_metadata, mutation_free_ambiguous_rollback, reasons_process,
  rollback_ownership_consistency_reasons,
}
use podlaz.Recovery.Phases.{each, process_result, rollback_child_process_results}
use podlaz.Recovery.Links.{exact_link_identity}
use podlaz.Recovery.Legacy.{cleanup_loaded}
use podlaz.Recovery.Allocation.{Allocation, session_rollback_metadata, session_link_identity}
use podlaz.Recovery.Allocated.{cleanup_allocated}
use podlaz.Recovery.Authority.{
  IsLook, IsProvenLink, IsAuthorized, looks, rolls_back_nftables, deletes_rule, deletes_route,
  reverts_dns, rolls_back_address, deletes_link, removes_config, removes_empty_root,
  removes_transaction, after_processes, Grants, LinkGrants, ConfigGrants,
}
use podlaz.Recovery.Runs.{cleanup_loaded-Keeps}
use podlaz.Recovery.SessionRuns.{cleanup_allocated-Keeps}

module _ (a : Option Allocation) (dir path : CleanPath) (tx : Transaction) (m : RollbackMetadata)
    (Proven : Type 0) where
  IsAuthorized-Grants : Grants (IsAuthorized a dir path tx m Proven) a tx m
  IsAuthorized-Grants = record {
    grants_look = λ c l. looks l;
    grants_nftables = λ e plan i o p. rolls_back_nftables i o p;
    grants_rule = λ e args i d. deletes_rule i d;
    grants_route = λ e args i d. deletes_route i d;
  }

  IsAuthorized-LinkGrants : Proven → LinkGrants (IsAuthorized a dir path tx m Proven) m
  IsAuthorized-LinkGrants p = record {
    grants_dns = λ e i o. reverts_dns i o p;
    grants_address = λ e b i o. rolls_back_address i o p;
    grants_tun = λ e i o. deletes_link i o p;
  }

  IsAuthorized-ConfigGrants : ConfigGrants (IsAuthorized a dir path tx m Proven) dir m
  IsAuthorized-ConfigGrants = record {
    grants_config = λ e i o. removes_config i o;
    grants_root = removes_empty_root;
  }

-- Whatever the host answers, every call that the cleanup of a transaction with the fixed resources makes
-- is authorized by the metadata that the recovery projects: it only looks, or it changes a resource that
-- an entry with podlaz's owner and a managed target names; and what is scoped to the link, the DNS, the
-- address and the link itself, is changed only behind an answer of the host that shows the one link that
-- the transaction created.
pub cleanup_loaded-IsAuthorized :
    (host : Host) (dir path : CleanPath) (candidate : Candidate) (tx : Transaction)
    → (let m = recovery_rollback_metadata tx in
        All
          (IsAuthorized none dir path tx m (
            IsProvenLink host
              (exact_link_identity m tx.applied_steps)
              (after_processes host m []).1))
          (cleanup_loaded host dir path candidate tx []).1)
cleanup_loaded-IsAuthorized host dir path candidate tx =
    let m = recovery_rollback_metadata tx in
    let Proven =
      IsProvenLink host (exact_link_identity m tx.applied_steps) (after_processes host m []).1 in
    cleanup_loaded-Keeps (IsAuthorized none dir path tx m Proven) host dir path candidate tx []
      (IsAuthorized-Grants none dir path tx m Proven)
      (IsAuthorized-LinkGrants none dir path tx m Proven)
      (λ _. IsAuthorized-ConfigGrants none dir path tx m Proven) (λ _. removes_transaction) tt

-- The same of a transaction with allocated resources: an owned rule is deleted only if it is the
-- allocation's rule for the server, by the mark of the allocation or by a host's address, or its rule
-- into the tunnel, with the words of that rule; an owned route only if it is the default route of the
-- allocation's table or a route of the main table to one host.
pub cleanup_allocated-IsAuthorized :
    (host : Host) (dir path : CleanPath) (candidate : Candidate) (tx : Transaction) (a : Allocation)
    → (let m = session_rollback_metadata a tx in
        All
          (IsAuthorized (some a) dir path tx m (
            IsProvenLink host
              (session_link_identity m tx.applied_steps)
              (after_processes host m []).1))
          (cleanup_allocated host dir path candidate tx a []).1)
cleanup_allocated-IsAuthorized host dir path candidate tx a =
    let m = session_rollback_metadata a tx in
    let Proven =
      IsProvenLink host (session_link_identity m tx.applied_steps) (after_processes host m []).1 in
    cleanup_allocated-Keeps (IsAuthorized (some a) dir path tx m Proven) host dir path candidate tx
      a [] (IsAuthorized-Grants (some a) dir path tx m Proven)
      (IsAuthorized-LinkGrants (some a) dir path tx m Proven)
      (λ _. IsAuthorized-ConfigGrants (some a) dir path tx m Proven) (λ _. removes_transaction) tt

reasons_blocked :
    (host : Host) (ps : List ChildProcessRollback) (rs : List Str) (t : List Call)
    → cleanup_phase_blocked
        (rollback_child_process_results host (ps ++ (reasons_process rs ∷ [])) t).0
      ≡ true
unfolding rollback_child_process_results each process_result str_eq
reasons_blocked host [] rs t = refl
reasons_blocked host (p ∷ ps) rs t =
    let (r, t') = process_result host p t in ground (arith, reasons_blocked host ps rs t')

-- Metadata that authorizes nothing.
record IsInert (m : RollbackMetadata) : Type 0 where
  pub no_grants : (a : Option Allocation) (tx : Transaction) → Grants IsLook a tx m
  pub no_link : LinkGrants IsLook m
  pub is_blocked :
      (host : Host) (t : List Call) → cleanup_phase_blocked (after_processes host m t).0 ≡ true

mutation_free-IsInert :
    (m : RollbackMetadata) (rs : List Str) → IsInert (mutation_free_ambiguous_rollback m rs)
unfolding mutation_free_ambiguous_rollback
mutation_free-IsInert m rs = record {
  no_grants = λ a tx. record {
    grants_look = λ c l. l;
    grants_nftables = λ e plan i o p. elim i [ ];
    grants_rule = λ e args i d. elim i [ ];
    grants_route = λ e args i d. elim i [ ];
  };
  no_link = record {
    grants_dns = λ e i o. elim i [ ];
    grants_address = λ e b i o. elim i [ ];
    grants_tun = λ e i o. elim i [ ];
  };
  is_blocked = λ host t. reasons_blocked host m.child_processes rs t;
}

project-IsInert :
    (candidate : TunAddressDesiredState → Bool) (rs : List Str) (tx : Transaction)
    → is_empty rs ≡ false
    → IsInert (project_metadata candidate rs tx)
unfolding project_metadata
project-IsInert candidate [] tx h = cc
project-IsInert candidate (r ∷ rs) tx h = mutation_free-IsInert tx.rollback (r ∷ rs)

session-IsInert :
    (a : Allocation) (tx : Transaction)
    → is_empty (rollback_ownership_consistency_reasons tx tx.rollback) ≡ false
    → IsInert (session_rollback_metadata a tx)
unfolding session_rollback_metadata
session-IsInert a tx h = project-IsInert _ _ tx h

legacy-IsInert :
    (tx : Transaction)
    → is_empty (rollback_ownership_consistency_reasons tx tx.rollback) ≡ false
    → IsInert (recovery_rollback_metadata tx)
unfolding recovery_rollback_metadata
legacy-IsInert tx h = project-IsInert _ _ tx h

-- When what a transaction applied, what it may roll back and what it desired are not consistent, neither
-- executor changes anything: every call only looks, and the file of the transaction stays.
pub ambiguous-IsLook :
    (host : Host) (dir path : CleanPath) (candidate : Candidate) (tx : Transaction) (a : Allocation)
    → is_empty (rollback_ownership_consistency_reasons tx tx.rollback) ≡ false
    → All IsLook (cleanup_loaded host dir path candidate tx []).1
      × All IsLook (cleanup_allocated host dir path candidate tx a []).1
ambiguous-IsLook host dir path candidate tx a h =
    let i = legacy-IsInert tx h in
    let s = session-IsInert a tx h in
    (
      cleanup_loaded-Keeps IsLook host dir path candidate tx [] (i.no_grants none tx)
          (λ _. i.no_link) (λ b. absurd (ground (arith, b, i.is_blocked host [])))
          (λ b. absurd (ground (arith, b, i.is_blocked host []))) tt,
      cleanup_allocated-Keeps IsLook host dir path candidate tx a [] (s.no_grants (some a) tx)
          (λ _. s.no_link) (λ b. absurd (ground (arith, b, s.is_blocked host [])))
          (λ b. absurd (ground (arith, b, s.is_blocked host []))) tt,
    )
