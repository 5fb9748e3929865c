-- ===== src/Subscription/Rollback/Runs.antt =====
-- Every failed import or update, whichever calls fail.
use podlaz.Common.{
  ◌≡◌, inl, inr, refl, sym, ap, ◌∙◌, Bool, true, false, [], Option, none, some, Str, Result, ok,
  err, arith,
}
use podlaz.StoreJson.{call}
use podlaz.Profile.Selector.{StoreError}
use podlaz.Profile.Store.{ProfileFile, run_replace_profiles}
use podlaz.Subscription.Model.{Source}
use podlaz.Subscription.Store.{SourceFile, SourceError, add_op, run_op, get, load}
use podlaz.Subscription.Home.{
  Cause, source_failed, profile_failed, Failure, failed, restore_failed, Home, on_sources,
  on_profiles, snapshot,
}
use podlaz.Subscription.Workflow.{
  import_source, update_source, Prepared, UpdateResult, Env, Request, source_env, profile_env,
  roll_back_both, undo_profiles, undo_snapshot, apply_profiles, with_profiles, add_source,
  run_prepared, run_if_prepared, run_source_workflow,
}
use podlaz.Subscription.Rollback.{
  Kept, Undone, step_ends, snapshot_sources, snapshot_profiles, snapshot_failed_sources,
  snapshot_failed_profiles, roll_back_sources-Undone, roll_back_profiles-Undone,
  roll_back_both-Undone, select_only-Undone, profiles_only, sources_only, failed_sources,
}

module _ (env : Env) where
  open env use {fails}

  undo_profiles-Undone :
      (is_new : Bool) (ss : Option SourceFile) (ps : Option ProfileFile) (e : StoreError)
      (h0 h : Home)
      → ss ≡ h0.sources
      → ps ≡ h0.profiles
      → (is_new ≡ false → h.sources ≡ h0.sources)
      → Undone is_new h0 (undo_profiles env is_new ss ps e h)
  unfolding undo_profiles
  undo_profiles-Undone true ss ps e h0 h s q k =
      roll_back_both-Undone env true h0 ss ps (profile_failed e) h s q
  undo_profiles-Undone false ss ps e h0 h s q k =
      roll_back_profiles-Undone env false h0 ps (profile_failed e) h q (k refl)

  undo_snapshot-Undone :
      (is_new : Bool) (ss : Option SourceFile) (e : Cause) (h0 h : Home)
      → ss ≡ h0.sources
      → h.profiles ≡ h0.profiles
      → (is_new ≡ false → h.sources ≡ h0.sources)
      → Undone is_new h0 (undo_snapshot env is_new ss e h)
  unfolding undo_snapshot
  undo_snapshot-Undone true ss e h0 h s q k = roll_back_sources-Undone env true h0 ss e h s q
  undo_snapshot-Undone false ss e h0 h s q k = inl (k refl, q)

  apply_profiles-Undone :
      (req : Request) (p : Prepared) (ss : Option SourceFile) (ps : Option ProfileFile)
      (h0 h : Home)
      → ss ≡ h0.sources
      → ps ≡ h0.profiles
      → (req.is_new ≡ false → h.sources ≡ h0.sources)
      → Undone req.is_new h0 (apply_profiles env req p ss ps h)
  unfolding apply_profiles
  apply_profiles-Undone req p ss ps h0 h s q k =
      let replace = run_replace_profiles (profile_env env) req.previous_ids p.profiles in
      step_ends (Undone req.is_new h0) (on_profiles replace h) _ _
        (λ e h' r.
          undo_profiles-Undone req.is_new ss ps e h0 h' s q
            λ b. profiles_only env replace h (err e) h' r ∙ k b)
        λ diff h' _.
          select_only-Undone env req.is_new h0 p diff (roll_back_both env ss ps)
            (λ e h'. roll_back_both-Undone env req.is_new h0 ss ps e h' s q) req.is_new p.profiles
            h'

  with_profiles-Undone :
      (req : Request) (p : Prepared) (ss : Option SourceFile) (h0 h : Home)
      → ss ≡ h0.sources
      → h.profiles ≡ h0.profiles
      → (req.is_new ≡ false → h.sources ≡ h0.sources)
      → Undone req.is_new h0 (with_profiles env req p ss h)
  unfolding with_profiles
  with_profiles-Undone req p ss h0 h s q k =
      step_ends (Undone req.is_new h0) (on_profiles (snapshot fails) h) _ _
        (λ e h' r.
          let (a, b) = snapshot_failed_profiles env e h h' r in
          undo_snapshot-Undone req.is_new ss e h0 h' s (b ∙ q) λ c. a ∙ k c)
        λ ps h' r.
          let (a, (b, _)) = snapshot_profiles env ps h h' r in
          apply_profiles-Undone req p ss ps h0 h' s (a ∙ q) λ c. b ∙ k c

  add_source-Undone :
      (req : Request) (p : Prepared) (ss : Option SourceFile) (h0 h : Home) (b : Bool)
      → b ≡ req.is_new
      → ss ≡ h0.sources
      → Kept h0 h
      → Undone req.is_new h0 (add_source env b p.source (with_profiles env req p ss) h)
  unfolding add_source
  add_source-Undone req p ss h0 h true e s (k, l) =
      let add = run_op (source_env env) (add_op p.source) in
      step_ends (Undone req.is_new h0) (on_sources add h) _ _
        (λ c h' r.
          let q = sources_only env add h (err c) h' r ∙ l in
          elim (failed_sources env (add_op p.source) h c h' r) [
            | inl t ↦ inl (t ∙ k, q)
            | inr t ↦ inr (sym e, ap source_failed t, q)
          ])
        λ u h' r.
          with_profiles-Undone req p ss h0 h' s (sources_only env add h (ok u) h' r ∙ l)
            λ f. ground arith
  add_source-Undone req p ss h0 h false e s (k, l) = with_profiles-Undone req p ss h0 h s l λ _. k

  run_prepared-Undone :
      (req : Request) (p : Prepared) (h : Home) → Undone req.is_new h (run_prepared env req p h)
  unfolding run_prepared
  run_prepared-Undone req p h =
      step_ends (Undone req.is_new h) (on_sources (snapshot fails) h) _ _
        (λ e h' r. inl (snapshot_failed_sources env e h h' r))
        λ ss h' r.
          let (a, k) = snapshot_sources env ss h h' r in
          add_source-Undone req p ss h h' req.is_new refl a k

  run_if_prepared-Undone :
      (req : Request) (o : Option Prepared) (h : Home)
      → Undone req.is_new h (run_if_prepared env req o h)
  unfolding run_if_prepared
  run_if_prepared-Undone req none h = inl (refl, refl)
  run_if_prepared-Undone req (some p) h = run_prepared-Undone req p h

  run_source_workflow-Undone :
      (req : Request) (h : Home) → Undone req.is_new h (run_source_workflow env req h)
  unfolding run_source_workflow
  run_source_workflow-Undone req h = run_if_prepared-Undone req (env.prepare req.source) h

  pub get-Kept :
      (id : Str) (h : Home) (r : Result SourceError Source) (h' : Home)
      → on_sources (get (source_env env) id) h ≡ (r, h')
      → Kept h h'
  unfolding on_sources get load call
  get-Kept id h r h' e = (ground arith, ground arith)

  Undone-Kept :
      (h h' : Home) (x : Result Failure UpdateResult × Home)
      → Kept h h'
      → Undone false h' x
      → Undone false h x
  Undone-Kept h h' (ok _, h2) k u = tt
  Undone-Kept h h' (err (restore_failed _), h2) k u = tt
  Undone-Kept h h' (err (failed e), h2) (a, b) (inl (c, d)) = inl (c ∙ a, d ∙ b)
  Undone-Kept h h' (err (failed e), h2) k (inr (f, _, _)) = cc

  update_source-Undone : (id : Str) (h : Home) → Undone false h (update_source env id h)
  unfolding update_source
  update_source-Undone id h =
      step_ends (Undone false h) (on_sources (get (source_env env) id) h) _ _
        (λ e h' r. inl (get-Kept id h (err e) h' r))
        λ s h' r.
          let req : Request = record { source = s; previous_ids = s.profile_ids; is_new = false } in
          Undone-Kept h h' (run_source_workflow env req h') (get-Kept id h (ok s) h' r)
            (run_source_workflow-Undone req h')

  -- Whichever calls fail, an import or update that fails, and does not report that a file could not
  -- be written back, has left the files of the sources and of the profiles as they were. The one
  -- exception is an import whose source was stored while its directory was not synced.
  pub import_and_update-Undone :
      (s : Source) (id : Str) (h : Home)
      → Undone true h (import_source env s h) × Undone false h (update_source env id h)
  unfolding import_source
  import_and_update-Undone s id h = (
    run_source_workflow-Undone (record { source = s; previous_ids = []; is_new = true }) h,
    update_source-Undone id h,
  )
