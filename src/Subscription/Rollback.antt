-- ===== src/Subscription/Rollback.antt =====
-- What a failed import or update leaves of the user's two files.
pub mod Runs
use podlaz.Common.{
  ℕ, ◌≡◌, ◌⊎◌, inl, inr, refl, sym, ap, ◌∙◌, Bool, true, false, List, [], ◌∷◌, Option, none, some,
  Str, Result, ok, err, arith, if◌then◌else◌,
}
use podlaz.StoreJson.{Run, call, sync_parent_directory}
use podlaz.Profile.Model.{Profile}
use podlaz.Profile.Changes.{UpdateDiff}
use podlaz.Profile.Selector.{StoreError}
use podlaz.Profile.Store.{ProfileFile, run_replace_profiles, run_select_if_unset}
use podlaz.Subscription.Model.{Source}
use podlaz.Subscription.Store.{
  SourceFile, SourceError, write_failed, Op, add_op, update_op, run_op, get, load,
}
use podlaz.Subscription.Store as Sources
use podlaz.Subscription.Refinement.{specified, Settles, run_op-Settles}
use podlaz.Subscription.Home.{
  Cause, source_failed, hook_failed, profile_failed, Failure, failed, restore_failed, Home, Step,
  on_sources, on_profiles, step, snapshot, write_back, restore,
}
use podlaz.Subscription.Workflow.{
  import_source, update_source, Prepared, UpdateResult, Env, Request, source_env, profile_env,
  roll_back_sources, roll_back_profiles, roll_back_both, undo_profiles, undo_snapshot, give_up,
  finish, run_hook, select_only, apply_profiles, with_profiles, add_source, run_prepared,
  run_if_prepared, run_source_workflow, linked,
}

-- Both files are as they were.
abbrev pub Kept : Home → Home → Type 0
Kept h h' = (h'.sources ≡ h.sources) × (h'.profiles ≡ h.profiles)

-- A failure that does not report that a file could not be written back has left both files, but for
-- an import whose source was stored while its directory was not synced.
abbrev pub Undone : Bool → Home → Result Failure UpdateResult × Home → Type 0
Undone is_new h (ok _, h') = Unit
Undone is_new h (err (restore_failed _), h') = Unit
Undone is_new h (err (failed e), h') =
    Kept h h'
    ⊎ (is_new ≡ true)
      × (e ≡ source_failed (write_failed sync_parent_directory))
      × (h'.profiles ≡ h.profiles)

-- A property of the end of a run is one of both ways on.
pub step_ends :
    {E A B : Type 0} (P : Result Failure B × Home → Type 0) (r : Result E A × Home)
    (recover : E → Step Failure B) (next : A → Step Failure B)
    → ((e : E) (h : Home) → r ≡ (err e, h) → P (recover e h))
    → ((a : A) (h : Home) → r ≡ (ok a, h) → P (next a h))
    → P (step r recover next)
step_ends P (ok a, h) recover next k l = l a h refl
step_ends P (err e, h) recover next k l = k e h refl

pub if_ends :
    {B : Type 0} (P : Result Failure B × Home → Type 0) (b : Bool) (x y : Result Failure B × Home)
    → (b ≡ true → P x)
    → (b ≡ false → P y)
    → P (if b then x else y)
if_ends P true x y k l = k refl
if_ends P false x y k l = l refl

module _ (env : Env) where
  open env use {fails, torn_sources, torn_profiles}

  restore_sources-target :
      (ss : Option SourceFile) (u : Unit {0}) (h h' : Home)
      → on_sources (restore fails torn_sources ss) h ≡ (ok u, h')
      → (h'.sources ≡ ss) × (h'.profiles ≡ h.profiles)
  unfolding on_sources restore write_back call
  restore_sources-target none u h h' e = (ground arith, ground arith)
  restore_sources-target (some f) u h h' e = (ground arith, ground arith)

  pub restore_profiles-target :
      (ps : Option ProfileFile) (u : Unit {0}) (h h' : Home)
      → on_profiles (restore fails torn_profiles ps) h ≡ (ok u, h')
      → (h'.profiles ≡ ps) × (h'.sources ≡ h.sources)
  unfolding on_profiles restore write_back call
  restore_profiles-target none u h h' e = (ground arith, ground arith)
  restore_profiles-target (some f) u h h' e = (ground arith, ground arith)

  pub snapshot_sources :
      (ss : Option SourceFile) (h h' : Home)
      → on_sources (snapshot fails) h ≡ (ok ss, h')
      → (ss ≡ h.sources) × Kept h h'
  unfolding on_sources snapshot call
  snapshot_sources ss h h' e = (ground arith, (ground arith, ground arith))

  pub snapshot_profiles :
      (ps : Option ProfileFile) (h h' : Home)
      → on_profiles (snapshot fails) h ≡ (ok ps, h')
      → (ps ≡ h.profiles) × Kept h h'
  unfolding on_profiles snapshot call
  snapshot_profiles ps h h' e = (ground arith, (ground arith, ground arith))

  pub snapshot_failed_sources :
      (c : Cause) (h h' : Home) → on_sources (snapshot fails) h ≡ (err c, h') → Kept h h'
  unfolding on_sources snapshot call
  snapshot_failed_sources c h h' e = (ground arith, ground arith)

  pub snapshot_failed_profiles :
      (c : Cause) (h h' : Home) → on_profiles (snapshot fails) h ≡ (err c, h') → Kept h h'
  unfolding on_profiles snapshot call
  snapshot_failed_profiles c h h' e = (ground arith, ground arith)

  module _ (is_new : Bool) (h0 : Home) where
    pub roll_back_sources-Undone :
        (ss : Option SourceFile) (e : Cause) (h : Home)
        → ss ≡ h0.sources
        → h.profiles ≡ h0.profiles
        → Undone is_new h0 (roll_back_sources env ss e h)
    unfolding roll_back_sources
    roll_back_sources-Undone ss e h s p =
        step_ends (Undone is_new h0) (on_sources (restore fails torn_sources ss) h) _ _
          (λ _ _ _. tt)
          λ u h' r. let (a, b) = restore_sources-target ss u h h' r in inl (a ∙ s, b ∙ p)

    pub roll_back_profiles-Undone :
        (ps : Option ProfileFile) (e : Cause) (h : Home)
        → ps ≡ h0.profiles
        → h.sources ≡ h0.sources
        → Undone is_new h0 (roll_back_profiles env ps e h)
    unfolding roll_back_profiles
    roll_back_profiles-Undone ps e h p s =
        step_ends (Undone is_new h0) (on_profiles (restore fails torn_profiles ps) h) _ _
          (λ _ _ _. tt)
          λ u h' r. let (a, b) = restore_profiles-target ps u h h' r in inl (b ∙ s, a ∙ p)

    pub roll_back_both-Undone :
        (ss : Option SourceFile) (ps : Option ProfileFile) (e : Cause) (h : Home)
        → ss ≡ h0.sources
        → ps ≡ h0.profiles
        → Undone is_new h0 (roll_back_both env ss ps e h)
    unfolding roll_back_both
    roll_back_both-Undone ss ps e h s p =
        step_ends (Undone is_new h0) (on_profiles (restore fails torn_profiles ps) h) _ _
          (λ _ h1 _.
            step_ends (Undone is_new h0) (on_sources (restore fails torn_sources ss) h1) _ _
              (λ _ _ _. tt) λ _ _ _. tt)
          λ u h1 r1.
            step_ends (Undone is_new h0) (on_sources (restore fails torn_sources ss) h1) _ _
              (λ _ _ _. tt)
              λ v h2 r2.
                let (a, _) = restore_profiles-target ps u h h1 r1 in
                let (c, d) = restore_sources-target ss v h1 h2 r2 in inl (c ∙ s, d ∙ (a ∙ p))

    module _ (p : Prepared) (diff : UpdateDiff) (undo : Cause → Step Failure UpdateResult)
        (undone : (e : Cause) (h : Home) → Undone is_new h0 (undo e h)) where
      run_hook-Undone : (h : Home) → Undone is_new h0 (run_hook env p diff undo h)
      unfolding run_hook finish
      run_hook-Undone h =
          if_ends (Undone is_new h0) env.hook_fails _ _ (λ _. undone hook_failed h)
            λ _.
              step_ends (Undone is_new h0)
                (on_sources (run_op (source_env env) (update_op (linked env p))) h) _ _
                (λ e h' _. undone (source_failed e) h') λ _ _ _. tt

      pub select_only-Undone :
          (b : Bool) (ps : List Profile) (h : Home)
          → Undone is_new h0 (select_only env b ps undo (run_hook env p diff undo) h)
      unfolding select_only
      select_only-Undone true (q ∷ []) h =
          step_ends (Undone is_new h0) (on_profiles (run_select_if_unset (profile_env env) q.id) h)
            _ _ (λ e h' _. undone (profile_failed e) h') λ _ h' _. run_hook-Undone h'
      select_only-Undone true [] h = run_hook-Undone h
      select_only-Undone true (q ∷ q' ∷ qs) h = run_hook-Undone h
      select_only-Undone false ps h = run_hook-Undone h

  pub profiles_only :
      {E A : Type 0} (m : Run ProfileFile E A) (h : Home) (r : Result E A) (h' : Home)
      → on_profiles m h ≡ (r, h')
      → h'.sources ≡ h.sources
  unfolding on_profiles
  profiles_only m h r h' e = ground arith

  pub sources_only :
      {E A : Type 0} (m : Run SourceFile E A) (h : Home) (r : Result E A) (h' : Home)
      → on_sources m h ≡ (r, h')
      → h'.profiles ≡ h.profiles
  unfolding on_sources
  sources_only m h r h' e = ground arith

  settled_error :
      (op : Op) (d : Sources.World) (e : SourceError)
      (x : Result SourceError (Unit {0}) × Sources.World)
      → Settles (source_env env) (specified op) d x
      → x.0 ≡ err e
      → (x.1.target ≡ d.target) ⊎ (e ≡ write_failed sync_parent_directory)
  settled_error op d e (ok _, d') s h = cc
  settled_error op d e (err c, d') (inl t) h = inl t
  settled_error op d e (err c, d') (inr (t, _)) h = inr (ground arith)

  -- A failed operation on the sources.
  pub failed_sources :
      (op : Op) (h : Home) (e : SourceError) (h' : Home)
      → on_sources (run_op (source_env env) op) h ≡ (err e, h')
      → (h'.sources ≡ h.sources) ⊎ (e ≡ write_failed sync_parent_directory)
  unfolding on_sources
  failed_sources op h e h' r =
      let d : Sources.World = record {
        target = h.sources;
        leftovers = h.leftovers;
        calls = h.calls;
      } in
      elim (settled_error op d e (run_op (source_env env) op d)
        (run_op-Settles (source_env env) op d)
        (ap (λ (x : Result SourceError (Unit {0}) × Home). x.0) r)) [
          | inl t ↦ inl (sym (ap (λ (x : Result SourceError (Unit {0}) × Home). x.1.sources) r) ∙ t)
          | inr t ↦ inr t
        ]
