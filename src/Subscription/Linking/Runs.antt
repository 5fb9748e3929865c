-- ===== src/Subscription/Linking/Runs.antt =====
-- Every import or update that succeeds, whichever calls fail.
use mathlib.Core.Path.{subst}
use podlaz.Common.{
  ◌≡◌, refl, sym, ap, ◌∙◌, Bool, true, false, List, [], ◌∷◌, map, Option, none, some, ok,
}
use podlaz.Profile.Model.{Profile, id_of}
use podlaz.Profile.Changes.{UpdateDiff}
use podlaz.Profile.Store.{ProfileFile, run_replace_profiles, run_select_if_unset}
use podlaz.Profile.Selector.{StoreError}
use podlaz.Profile.Outcomes.{Holds}
use podlaz.Subscription.Store.{SourceFile, load_file, add_op, run_op}
use podlaz.Subscription.Rollback.{step_ends, if_ends, profiles_only, snapshot_sources}
use podlaz.Subscription.Home.{
  restore, Cause, profile_failed, hook_failed, Failure, Home, Step, on_sources, on_profiles,
  snapshot,
}
use podlaz.Subscription.Workflow.{
  roll_back_sources, roll_back_profiles, Prepared, UpdateResult, Env, Request, source_env,
  profile_env, roll_back_both, undo_profiles, undo_snapshot, run_hook, select_only, apply_profiles,
  with_profiles, add_source, run_prepared, run_if_prepared, run_source_workflow,
}
use podlaz.Subscription.Linking.{
  Agree, Links, added, selected_profiles, replaced_profiles, roll_back_both-Links, finish-Links,
}

module _ (env : Env) where
  open env use {fails}

  module _ (h0 : Home) where
    module _ (p : Prepared) (diff : UpdateDiff) (undo : Cause → Step Failure UpdateResult)
        (undone : (e : Cause) (h : Home) → Links env h0 (undo e h)) where
      run_hook-Links :
          (h : Home)
          → Agree env p.source.id h0.sources h.sources
          → Holds (map id_of p.profiles) h.profiles
          → Links env h0 (run_hook env p diff undo h)
      unfolding run_hook
      run_hook-Links h agree held =
          if_ends (Links env h0) env.hook_fails _ _ (λ _. undone hook_failed h)
            λ _. finish-Links env h0 p diff undo h undone agree held

      select_only-Links :
          (b : Bool) (ps : List Profile) (h : Home)
          → Agree env p.source.id h0.sources h.sources
          → Holds (map id_of p.profiles) h.profiles
          → Links env h0 (select_only env b ps undo (run_hook env p diff undo) h)
      unfolding select_only
      select_only-Links true (q ∷ []) h agree held =
          let select = run_select_if_unset (profile_env env) q.id in
          step_ends (Links env h0) (on_profiles select h) _ _
            (λ e h' _. undone (profile_failed e) h')
            λ b h' r.
              run_hook-Links h'
                (subst (Agree env p.source.id h0.sources)
                  (sym (profiles_only env select h (ok b) h' r)) agree)
                (selected_profiles env q.id (map id_of p.profiles) b h h' held r)
      select_only-Links true [] h agree held = run_hook-Links h agree held
      select_only-Links true (q ∷ q' ∷ qs) h agree held = run_hook-Links h agree held
      select_only-Links false ps h agree held = run_hook-Links h agree held

    module _ (req : Request) (p : Prepared) (ss : Option SourceFile) where
      undo_profiles-Links :
          (b : Bool) (ps : Option ProfileFile) (e : StoreError) (h : Home)
          → Links env h0 (undo_profiles env b ss ps e h)
      unfolding undo_profiles roll_back_profiles
      undo_profiles-Links true ps e h = roll_back_both-Links env h0 ss ps (profile_failed e) h
      undo_profiles-Links false ps e h =
          step_ends (Links env h0) (on_profiles (restore env.fails env.torn_profiles ps) h) _ _
            (λ _ _ _. tt) λ _ _ _. tt

      undo_snapshot-Links :
          (b : Bool) (e : Cause) (h : Home) → Links env h0 (undo_snapshot env b ss e h)
      unfolding undo_snapshot roll_back_sources
      undo_snapshot-Links true e h =
          step_ends (Links env h0) (on_sources (restore env.fails env.torn_sources ss) h) _ _
            (λ _ _ _. tt) λ _ _ _. tt
      undo_snapshot-Links false e h = tt

      apply_profiles-Links :
          (ps : Option ProfileFile) (h : Home)
          → Agree env p.source.id h0.sources h.sources
          → Links env h0 (apply_profiles env req p ss ps h)
      unfolding apply_profiles
      apply_profiles-Links ps h agree =
          let replace = run_replace_profiles (profile_env env) req.previous_ids p.profiles in
          step_ends (Links env h0) (on_profiles replace h) _ _
            (λ e h' _. undo_profiles-Links req.is_new ps e h')
            λ diff h' r.
              select_only-Links p diff (roll_back_both env ss ps)
                (roll_back_both-Links env h0 ss ps) req.is_new p.profiles h'
                (subst (Agree env p.source.id h0.sources)
                  (sym (profiles_only env replace h (ok diff) h' r)) agree)
                (replaced_profiles env req.previous_ids p.profiles diff h h' r)

      with_profiles-Links :
          (h : Home)
          → Agree env p.source.id h0.sources h.sources
          → Links env h0 (with_profiles env req p ss h)
      unfolding with_profiles
      with_profiles-Links h agree =
          step_ends (Links env h0) (on_profiles (snapshot fails) h) _ _
            (λ e h' _. undo_snapshot-Links req.is_new e h')
            λ ps h' r. apply_profiles-Links ps h' (
              subst (Agree env p.source.id h0.sources)
                (sym (profiles_only env (snapshot fails) h (ok ps) h' r)) agree)

      add_source-Links :
          (b : Bool) (h : Home)
          → h.sources ≡ h0.sources
          → Links env h0 (add_source env b p.source (with_profiles env req p ss) h)
      unfolding add_source
      add_source-Links true h e =
          let add = run_op (source_env env) (add_op p.source) in
          step_ends (Links env h0) (on_sources add h) _ _ (λ _ _ _. tt)
            λ u h' r.
              with_profiles-Links h'
                (subst (λ o. Agree env p.source.id o h'.sources) e (added env p.source h u h' r))
      add_source-Links false h e =
          with_profiles-Links h
            λ ss' l. (ss', ap (load_file (source_env env)) (sym e) ∙ l, λ id _. refl)

    run_if_prepared-Links :
        (req : Request) (o : Option Prepared) → Links env h0 (run_if_prepared env req o h0)
    unfolding run_if_prepared run_prepared
    run_if_prepared-Links req none = tt
    run_if_prepared-Links req (some p) =
        step_ends (Links env h0) (on_sources (snapshot fails) h0) _ _ (λ _ _ _. tt)
          λ ss h' r.
            let (_, (e, _)) = snapshot_sources env ss h0 h' r in
            add_source-Links req p ss req.is_new h' e

  -- Whichever calls fail, an import or update that succeeds has stored the source that it returns,
  -- has left every other source as it was, and every profile that the source lists is in the store of
  -- the profiles.
  pub run_source_workflow-Links :
      (req : Request) (h : Home) → Links env h (run_source_workflow env req h)
  unfolding run_source_workflow
  run_source_workflow-Links req h = run_if_prepared-Links h req (env.prepare req.source)
