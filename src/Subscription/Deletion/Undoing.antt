-- ===== src/Subscription/Deletion/Undoing.antt =====
-- What a failed deletion of a subscription leaves of the user's two files.
use podlaz.Common.{
  ℕ, ◌≡◌, ◌⊎◌, inl, inr, sym, ap, ◌∙◌, Bool, true, false, List, Option, Str, Result, ok, err, arith,
}
use podlaz.StoreJson.{call, sync_parent_directory}
use podlaz.Profile.Selector.{StoreError}
use podlaz.Profile.Selector
use podlaz.Profile.Store.{ProfileFile, World, load_state, run_delete_subscription}
use podlaz.Profile.Outcomes.{run_delete_subscription-Fails}
use podlaz.Subscription.Model.{Source}
use podlaz.Subscription.Store.{SourceError, write_failed, get, list, load, run_op, delete_op}
use podlaz.Subscription.Home.{
  Cause, hook_failed, source_failed, profile_failed, Failure, failed, restore_failed, Home,
  on_sources, on_profiles, snapshot, restore,
}
use podlaz.Subscription.Workflow.{Env, source_env, profile_env, roll_back_profiles}
use podlaz.Subscription.Rollback.{
  Kept, step_ends, if_ends, snapshot_profiles, snapshot_failed_profiles, restore_profiles-target,
  profiles_only, sources_only, failed_sources,
}
use podlaz.Subscription.Rollback.Runs.{get-Kept}
use podlaz.Subscription.Deletion.{
  linked_by_others, run_count_matching, delete_source, finish_delete, delete_profiles,
  delete_linked, delete_found, run_subscription_delete,
}

-- A failure that does not report that a file could not be written back has left both files, but for
-- one of the writes themselves: of the profiles, or of the sources behind a missing sync.
abbrev pub Undeleted : Home → Result Failure (ℕ × ℕ) × Home → Type 0
Undeleted h (ok _, h') = Unit
Undeleted h (err (restore_failed _), h') = Unit
Undeleted h (err (failed e), h') =
    Kept h h'
    ⊎ (e ≡ profile_failed Selector.write_failed) × (h'.sources ≡ h.sources)
    ⊎ (e ≡ source_failed (write_failed sync_parent_directory)) × (h'.profiles ≡ h.profiles)

module _ (env : Env) where
  list-Kept :
      (h : Home) (r : Result SourceError (List Source)) (h' : Home)
      → on_sources (list (source_env env)) h ≡ (r, h')
      → Kept h h'
  unfolding on_sources list load call
  list-Kept h r h' e = (ground arith, ground arith)

  run_count_matching-Kept :
      (owned linked : List Str) (h : Home) (r : Result StoreError ℕ) (h' : Home)
      → on_profiles (run_count_matching env owned linked) h ≡ (r, h')
      → Kept h h'
  unfolding on_profiles run_count_matching load_state call
  run_count_matching-Kept owned linked h r h' e = (ground arith, ground arith)

  deleted_profiles :
      (ids : List Str) (e : StoreError) (h h' : Home)
      → on_profiles (run_delete_subscription (profile_env env) ids) h ≡ (err e, h')
      → (h'.profiles ≡ h.profiles) ⊎ (e ≡ Selector.write_failed)
  unfolding on_profiles
  deleted_profiles ids e h h' r =
      let d : World = record { target = h.profiles; leftovers = h.leftovers; calls = h.calls } in
      let x = run_delete_subscription (profile_env env) ids d in
      elim (run_delete_subscription-Fails (profile_env env) ids e d x.1
        (ap (λ (y : Result StoreError ℕ × Home). (y.0, x.1)) r)) [
          | inl t ↦ inl (sym (ap (λ (y : Result StoreError ℕ × Home). y.1.profiles) r) ∙ t)
          | inr t ↦ inr t
        ]

  module _ (h0 : Home) where
    roll_back-Undeleted :
        (ps : Option ProfileFile) (e : Cause) (h : Home)
        → ps ≡ h0.profiles
        → (h.sources ≡ h0.sources) ⊎ (e ≡ source_failed (write_failed sync_parent_directory))
        → Undeleted h0 (roll_back_profiles env ps e h)
    unfolding roll_back_profiles
    roll_back-Undeleted ps e h p c =
        step_ends (Undeleted h0) (on_profiles (restore env.fails env.torn_profiles ps) h) _ _
          (λ _ _ _. tt)
          λ u h' r.
            let (a, b) = restore_profiles-target env ps u h h' r in
            elim c [ inl s ↦ inl (b ∙ s, a ∙ p) | inr t ↦ inr (inr (t, a ∙ p)) ]

    finish_delete-Undeleted :
        (s : Source) (counts : ℕ × ℕ) (ps : Option ProfileFile) (h : Home)
        → ps ≡ h0.profiles
        → h.sources ≡ h0.sources
        → Undeleted h0 (finish_delete env s counts ps h)
    unfolding finish_delete
    finish_delete-Undeleted s counts ps h p q =
        if_ends (Undeleted h0) env.hook_fails _ _
          (λ _. roll_back-Undeleted ps hook_failed h p (inl q))
          λ _.
            step_ends (Undeleted h0) (on_sources (run_op (source_env env) (delete_op s.id)) h) _ _
              (λ e h' r.
                roll_back-Undeleted ps (source_failed e) h' p
                  (elim (failed_sources env (delete_op s.id) h e h' r) [
                    | inl t ↦ inl (t ∙ q)
                    | inr t ↦ inr (ap source_failed t)
                  ]))
              λ _ _ _. tt

    delete_profiles-Undeleted :
        (s : Source) (matching : ℕ) (h : Home)
        → Kept h0 h
        → Undeleted h0 (delete_profiles env s matching h)
    unfolding delete_profiles
    delete_profiles-Undeleted s matching h (a, b) =
        step_ends (Undeleted h0) (on_profiles (snapshot env.fails) h) _ _
          (λ e h' r. let (c, d) = snapshot_failed_profiles env e h h' r in inl (c ∙ a, d ∙ b))
          λ ps h1 r1.
            let (p, (c, d)) = snapshot_profiles env ps h h1 r1 in
            let delete = run_delete_subscription (profile_env env) s.profile_ids in
            step_ends (Undeleted h0) (on_profiles delete h1) _ _
              (λ e h2 r2.
                let q = profiles_only env delete h1 (err e) h2 r2 ∙ (c ∙ a) in
                elim (deleted_profiles s.profile_ids e h1 h2 r2) [
                  | inl t ↦ inl (q, t ∙ (d ∙ b))
                  | inr t ↦ inr (inl (ap profile_failed t, q))
                ])
              λ removed h2 r2.
                finish_delete-Undeleted s (removed, matching) ps h2 (p ∙ b)
                  (profiles_only env delete h1 (ok removed) h2 r2 ∙ (c ∙ a))

    delete_source-Undeleted :
        (s : Source) (h : Home) → Kept h0 h → Undeleted h0 (delete_source env s h)
    unfolding delete_source
    delete_source-Undeleted s h (a, b) =
        let delete = run_op (source_env env) (delete_op s.id) in
        step_ends (Undeleted h0) (on_sources delete h) _ _
          (λ e h' r.
            let q = sources_only env delete h (err e) h' r ∙ b in
            elim (failed_sources env (delete_op s.id) h e h' r) [
              | inl t ↦ inl (t ∙ a, q)
              | inr t ↦ inr (inr (ap source_failed t, q))
            ])
          λ _ _ _. tt

    delete_linked-Undeleted :
        (s : Source) (h : Home) → Kept h0 h → Undeleted h0 (delete_linked env s h)
    unfolding delete_linked
    delete_linked-Undeleted s h (a, b) =
        step_ends (Undeleted h0) (on_sources (list (source_env env)) h) _ _
          (λ e h' r. let (c, d) = list-Kept h (err e) h' r in inl (c ∙ a, d ∙ b))
          λ ss h1 r1.
            let (c, d) = list-Kept h (ok ss) h1 r1 in
            let linked = linked_by_others s.id ss in
            step_ends (Undeleted h0) (on_profiles (run_count_matching env s.profile_ids linked) h1)
              _ _
              (λ e h2 r2.
                let (x, y) = run_count_matching-Kept s.profile_ids linked h1 (err e) h2 r2 in
                inl (x ∙ (c ∙ a), y ∙ (d ∙ b)))
              λ n h2 r2.
                let (x, y) = run_count_matching-Kept s.profile_ids linked h1 (ok n) h2 r2 in
                delete_profiles-Undeleted s n h2 (x ∙ (c ∙ a), y ∙ (d ∙ b))

    delete_found-Undeleted :
        (confirmed keep_profiles : Bool) (s : Source) (h : Home)
        → Kept h0 h
        → Undeleted h0 (delete_found env confirmed keep_profiles s h)
    unfolding delete_found
    delete_found-Undeleted false keep_profiles s h k = inl k
    delete_found-Undeleted true true s h k = delete_source-Undeleted s h k
    delete_found-Undeleted true false s h k = delete_linked-Undeleted s h k

  -- Whichever calls fail, a deletion that fails, and does not report that a file could not be written
  -- back, has left both files as they were, but for two errors of the writes: behind that of the
  -- profiles only the sources are known to be as they were, and behind that of the sources, whose
  -- directory was not synced, only the profiles.
  pub run_subscription_delete-Undeleted :
      (id : Str) (confirmed keep_profiles : Bool) (h : Home)
      → Undeleted h (run_subscription_delete env id confirmed keep_profiles h)
  unfolding run_subscription_delete
  run_subscription_delete-Undeleted id confirmed keep_profiles h =
      step_ends (Undeleted h) (on_sources (get (source_env env) id) h) _ _
        (λ e h' r. inl (get-Kept env id h (err e) h' r))
        λ s h' r.
          delete_found-Undeleted h confirmed keep_profiles s h' (get-Kept env id h (ok s) h' r)
