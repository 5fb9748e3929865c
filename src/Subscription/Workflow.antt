-- ===== src/Subscription/Workflow.antt =====
-- Importing and updating a subscription (internal/sub/source_workflow.go): the two files of the user
-- are changed one after the other, and written back when a later step fails.
use podlaz.Common.{
  ℕ, Bool, true, false, List, [], ◌∷◌, map, Option, none, some, Str, ok, err, if◌then◌else◌, length,
}
use podlaz.Profile.Model.{Profile, id_of}
use podlaz.Profile.Selector.{StoreError}
use podlaz.Profile.Changes.{UpdateDiff}
use podlaz.Profile.Store.{ProfileFile, run_replace_profiles, run_select_if_unset}
use podlaz.Profile.Store as Profiles
use podlaz.Subscription.Model.{Source, Format, Url}
use podlaz.Subscription.Store.{SourceFile, SourceError, get, run_op, add_op, update_op}
use podlaz.Subscription.Store as Sources
use podlaz.Subscription.Home.{
  Cause, prepare_failed, hook_failed, source_failed, profile_failed, Failure, failed,
  restore_failed, Step, on_sources, on_profiles, step, snapshot, restore,
}

pub record Issue : Type 0 where
  pub line : ℕ
  pub message : Str

-- `preparedSource`, with what was parsed.
pub record Prepared : Type 0 where
  pub source : Source
  pub format : Format
  pub profiles : List Profile
  pub unsupported : List Issue
  pub warnings : List Issue

pub record UpdateResult : Type 0 where
  pub subscription : Source
  pub diff : UpdateDiff
  pub unsupported : ℕ
  pub warnings : List Issue
  pub issues : List Issue

-- What the workflow meets: the calls that fail, what a write that fails half way leaves of a file,
-- what `prepareSource` fetches and parses, whether the hook behind the profiles fails, and the time.
pub record Env : Type 0 where
  pub fails : ℕ → Bool
  pub is_json_object : Str → Bool
  pub lower : Str → Str
  pub parse_url : Str → Option Url
  pub torn_sources : SourceFile → SourceFile
  pub torn_profiles : ProfileFile → ProfileFile
  pub prepare : Source → Option Prepared
  pub hook_fails : Bool
  pub now : ℕ

pub record Request : Type 0 where
  pub source : Source
  pub previous_ids : List Str
  pub is_new : Bool

module _ (env : Env) where
  open env use {
    fails, is_json_object, lower, parse_url, torn_sources, torn_profiles, prepare, hook_fails, now,
  }

  abbrev pub source_env : Sources.Env
  source_env = record { fails = fails; torn = torn_sources; lower = lower; parse_url = parse_url }

  abbrev pub profile_env : Profiles.Env
  profile_env = record {
    fails = fails;
    torn = torn_profiles;
    is_json_object = is_json_object;
    lower = lower;
  }

  -- `rollbackSourceWorkflowState`, for each set of files that it is called with.
  unfoldable pub roll_back_sources : {B : Type 0} → Option SourceFile → Cause → Step Failure B
  unfolding restore on_sources
  roll_back_sources ss e h =
      step (on_sources (restore fails torn_sources ss) h) (λ _ h. (err (restore_failed e), h))
        λ _ h. (err (failed e), h)

  unfoldable pub roll_back_profiles : {B : Type 0} → Option ProfileFile → Cause → Step Failure B
  unfolding restore on_profiles
  roll_back_profiles ps e h =
      step (on_profiles (restore fails torn_profiles ps) h) (λ _ h. (err (restore_failed e), h))
        λ _ h. (err (failed e), h)

  unfoldable pub roll_back_both :
      {B : Type 0} → Option SourceFile → Option ProfileFile → Cause → Step Failure B
  unfolding restore on_profiles on_sources
  roll_back_both ss ps e h =
      step (on_profiles (restore fails torn_profiles ps) h)
        (λ _ h.
          step (on_sources (restore fails torn_sources ss) h) (λ _ h. (err (restore_failed e), h))
            λ _ h. (err (restore_failed e), h))
        λ _ h.
          step (on_sources (restore fails torn_sources ss) h) (λ _ h. (err (restore_failed e), h))
            λ _ h. (err (failed e), h)

  abbrev pub give_up : {B : Type 0} → Cause → Step Failure B
  give_up e h = (err (failed e), h)

  unfoldable pub linked : Prepared → Source
  linked p = record p.source {
    format = p.format;
    profile_ids = map id_of p.profiles;
    last_updated_at = now;
  }

  unfoldable pub result_of : Prepared → UpdateDiff → UpdateResult
  unfolding linked
  result_of p diff = record {
    subscription = linked p;
    diff = diff;
    unsupported = length p.unsupported;
    warnings = p.warnings;
    issues = p.unsupported;
  }

  -- The last step: the source is stored with the profiles that it owns now.
  unfoldable pub finish :
      Prepared → UpdateDiff → (Cause → Step Failure UpdateResult) → Step Failure UpdateResult
  unfolding on_sources result_of linked
  finish p diff undo h =
      step (on_sources (run_op source_env (update_op (linked p))) h) (λ e. undo (source_failed e))
        λ _ h. (ok (result_of p diff), h)

  unfoldable pub run_hook :
      Prepared → UpdateDiff → (Cause → Step Failure UpdateResult) → Step Failure UpdateResult
  unfolding finish
  run_hook p diff undo h = if hook_fails then undo hook_failed h else finish p diff undo h

  -- The only profile of an import is selected, where none is.
  unfoldable pub select_only :
      Bool
      → List Profile
      → (Cause → Step Failure UpdateResult)
      → Step Failure UpdateResult
      → Step Failure UpdateResult
  unfolding on_profiles
  select_only true (p ∷ []) undo next h =
      step (on_profiles (run_select_if_unset profile_env p.id) h) (λ e. undo (profile_failed e))
        λ _. next
  select_only true [] undo next h = next h
  select_only true (p ∷ q ∷ ps) undo next h = next h
  select_only false ps undo next h = next h

  -- What a failure of the profiles, and one of their snapshot, undoes.
  unfoldable pub undo_profiles :
      Bool → Option SourceFile → Option ProfileFile → StoreError → Step Failure UpdateResult
  unfolding roll_back_both roll_back_profiles
  undo_profiles true ss ps e = roll_back_both ss ps (profile_failed e)
  undo_profiles false ss ps e = roll_back_profiles ps (profile_failed e)

  unfoldable pub undo_snapshot : Bool → Option SourceFile → Cause → Step Failure UpdateResult
  unfolding roll_back_sources
  undo_snapshot true ss e = roll_back_sources ss e
  undo_snapshot false ss e = give_up e

  -- From `ReplaceSubscriptionProfiles` on.
  unfoldable pub apply_profiles :
      Request → Prepared → Option SourceFile → Option ProfileFile → Step Failure UpdateResult
  unfolding on_profiles run_hook select_only roll_back_both undo_profiles
  apply_profiles req p ss ps h =
      step (on_profiles (run_replace_profiles profile_env req.previous_ids p.profiles) h)
        (undo_profiles req.is_new ss ps)
        λ diff.
          select_only req.is_new p.profiles (roll_back_both ss ps)
            (run_hook p diff (roll_back_both ss ps))

  unfoldable pub with_profiles : Request → Prepared → Option SourceFile → Step Failure UpdateResult
  unfolding on_profiles snapshot apply_profiles undo_snapshot
  with_profiles req p ss h =
      step (on_profiles (snapshot fails) h) (undo_snapshot req.is_new ss)
        λ ps. apply_profiles req p ss ps

  -- A new source is stored first.
  unfoldable pub add_source : Bool → Source → Step Failure UpdateResult → Step Failure UpdateResult
  unfolding on_sources
  add_source true s next h =
      step (on_sources (run_op source_env (add_op s)) h) (λ e. give_up (source_failed e)) λ _. next
  add_source false s next h = next h

  unfoldable pub run_prepared : Request → Prepared → Step Failure UpdateResult
  unfolding on_sources snapshot with_profiles add_source
  run_prepared req p h =
      step (on_sources (snapshot fails) h) give_up
        λ ss. add_source req.is_new p.source (with_profiles req p ss)

  unfoldable pub run_if_prepared : Request → Option Prepared → Step Failure UpdateResult
  unfolding run_prepared
  run_if_prepared req none h = (err (failed prepare_failed), h)
  run_if_prepared req (some p) h = run_prepared req p h

  -- `runSourceWorkflow`.
  unfoldable pub run_source_workflow : Request → Step Failure UpdateResult
  unfolding run_if_prepared
  run_source_workflow req = run_if_prepared req (prepare req.source)

  -- `ImportSource`, of what `NewSource` made of the URL.
  unfoldable pub import_source : Source → Step Failure UpdateResult
  import_source s = run_source_workflow (record { source = s; previous_ids = []; is_new = true })

  -- `UpdateSource`.
  unfoldable pub update_source : Str → Step Failure UpdateResult
  unfolding on_sources
  update_source id h =
      step (on_sources (get source_env id) h) (λ e. give_up (source_failed e))
        λ s.
          run_source_workflow (record { source = s; previous_ids = s.profile_ids; is_new = false })
