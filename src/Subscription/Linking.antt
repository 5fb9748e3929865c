-- ===== src/Subscription/Linking.antt =====
-- What an import or update that succeeds leaves of the user's two files.
pub mod Runs
use mathlib.Core.Path.{subst}
use podlaz.Common.{
  ℕ, ◌≡◌, refl, sym, ap, ◌∙◌, Bool, true, false, List, [], ◌∷◌, map, Option, none, some, Str,
  str_eq, str_eq→≡, str_eq_refl, Result, ok, err, arith, if◌then◌else◌,
}
use podlaz.StoreJson.{Run}
use podlaz.Profile.Model.{Profile, id_of}
use podlaz.Profile.Changes.{UpdateDiff}
use podlaz.Profile.Store.{ProfileFile, World, run_replace_profiles, run_select_if_unset}
use podlaz.Profile.Selector.{StoreError}
use podlaz.Profile.Outcomes.{Holds, run_replace_profiles-Holds, run_select_if_unset-Holds}
use podlaz.Subscription.Model.{Source}
use podlaz.Subscription.Store.{
  SourceFile, encode_sources, SourceError, Op, load_file, add_op, update_op, run_op,
}
use podlaz.Subscription.Store as Sources
use podlaz.Subscription.Refinement.{view, specified, Changed, Settles, run_op-Settles}
use podlaz.Subscription.Rollback.{
  Kept, step_ends, if_ends, profiles_only, sources_only, snapshot_sources, snapshot_profiles,
}
use podlaz.Subscription.Home.{
  restore, Cause, source_failed, profile_failed, hook_failed, Failure, Home, Step, on_sources,
  on_profiles, snapshot,
}
use podlaz.Subscription.Workflow.{
  roll_back_sources, roll_back_profiles, Prepared, UpdateResult, Env, Request, source_env,
  profile_env, roll_back_both, undo_profiles, undo_snapshot, give_up, finish, run_hook, select_only,
  apply_profiles, with_profiles, add_source, run_prepared, run_if_prepared, run_source_workflow,
  linked, result_of,
}

module _ (env : Env) where
  open env use {fails}

  -- The sources before a run and some way into it, if only the source of this identity may differ.
  abbrev pub Agree : Str → Option SourceFile → Option SourceFile → Type 0
  Agree key o o' =
      (ss' : List Source)
      → load_file (source_env env) o' ≡ ok ss'
      → (ss : List Source) × (load_file (source_env env) o ≡ ok ss)
        × ((id : Str) → str_eq key id ≡ false → view ss' id ≡ view ss id)

  -- What a success leaves: the source that is returned is stored and every other source is as it
  -- was, and the profiles that it lists are in the store of the profiles.
  abbrev pub Stored : Home → UpdateResult → Home → Type 0
  Stored h u h' =
      ((ss ss' : List Source) × (load_file (source_env env) h.sources ≡ ok ss)
        × (h'.sources ≡ some (encode_sources ss'))
        × ((id : Str)
            → view ss' id
              ≡ (if str_eq u.subscription.id id then some u.subscription else view ss id)))
      × Holds u.subscription.profile_ids h'.profiles

  abbrev pub Links : Home → Result Failure UpdateResult × Home → Type 0
  Links h (ok u, h') = Stored h u h'
  Links h (err _, h') = Unit

  updated :
      (key : Str) (s : Source) (o o' : Option SourceFile)
      → key ≡ s.id
      → Agree key o o'
      → (ss ss' : List Source) → load_file (source_env env) o' ≡ ok ss
      → ((id : Str) → view ss' id ≡ specified (update_op s) (view ss) id)
      → (ss0 : List Source) × (load_file (source_env env) o ≡ ok ss0)
        × ((id : Str) → view ss' id ≡ (if str_eq s.id id then some s else view ss0 id))
  updated key s o o' k agree ss ss' l v =
      let (ss0, l0, a) = agree ss l in (ss0, l0, λ id. ground (arith, v id, a id, k))

  settled_ok :
      (op : Op) (d : Sources.World) (u : Unit {0})
      (x : Result SourceError (Unit {0}) × Sources.World)
      → Settles (source_env env) (specified op) d x
      → x.0 ≡ ok u
      → Changed (source_env env) (specified op) d x.1
  settled_ok op d u (ok _, d') c e = c
  settled_ok op d u (err _, d') c e = cc

  changed_sources :
      (op : Op) (h : Home) (u : Unit {0}) (h' : Home)
      → on_sources (run_op (source_env env) op) h ≡ (ok u, h')
      → (ss ss' : List Source) × (load_file (source_env env) h.sources ≡ ok ss)
        × (h'.sources ≡ some (encode_sources ss'))
        × ((id : Str) → view ss' id ≡ specified op (view ss) id)
  unfolding on_sources
  changed_sources op h u h' r =
      let d : Sources.World = record {
        target = h.sources;
        leftovers = h.leftovers;
        calls = h.calls;
      } in
      let (ss, ss', l, t, v) =
        settled_ok op d u (run_op (source_env env) op d) (run_op-Settles (source_env env) op d)
          (ap (λ (x : Result SourceError (Unit {0}) × Home). x.0) r) in
      (ss, ss', l, sym (ap (λ (x : Result SourceError (Unit {0}) × Home). x.1.sources) r) ∙ t, v)

  encode_sources-loads :
      (ss ss' : List Source)
      → load_file (source_env env) (some (encode_sources ss)) ≡ ok ss'
      → ss' ≡ ss
  unfolding load_file
  encode_sources-loads ss ss' h = ground arith

  -- A new source is added to sources that agree elsewhere.
  pub added :
      (s : Source) (h : Home) (u : Unit {0}) (h' : Home)
      → on_sources (run_op (source_env env) (add_op s)) h ≡ (ok u, h')
      → Agree s.id h.sources h'.sources
  added s h u h' r ss2 l2 =
      let (ss, ss', l, t, v) = changed_sources (add_op s) h u h' r in
      let e = encode_sources-loads ss' ss2 (ap (load_file (source_env env)) (sym t) ∙ l2) in
      (ss, l, λ id n. ground (arith, e, v id, n))

  pub selected_profiles :
      (id : Str) (ids : List Str) (b : Bool) (h h' : Home)
      → Holds ids h.profiles
      → on_profiles (run_select_if_unset (profile_env env) id) h ≡ (ok b, h')
      → Holds ids h'.profiles
  unfolding on_profiles
  selected_profiles id ids b h h' held r =
      let d : World = record { target = h.profiles; leftovers = h.leftovers; calls = h.calls } in
      let x = run_select_if_unset (profile_env env) id d in
      subst (Holds ids) (ap (λ (x : Result StoreError Bool × Home). x.1.profiles) r) (
        run_select_if_unset-Holds (profile_env env) id ids b d x.1 held
          (ap (λ (y : Result StoreError Bool × Home). (y.0, x.1)) r))

  pub replaced_profiles :
      (previous : List Str) (next : List Profile) (diff : UpdateDiff) (h h' : Home)
      → on_profiles (run_replace_profiles (profile_env env) previous next) h ≡ (ok diff, h')
      → Holds (map id_of next) h'.profiles
  unfolding on_profiles
  replaced_profiles previous next diff h h' r =
      let d : World = record { target = h.profiles; leftovers = h.leftovers; calls = h.calls } in
      let x = run_replace_profiles (profile_env env) previous next d in
      subst (Holds (map id_of next))
        (ap (λ (x : Result StoreError UpdateDiff × Home). x.1.profiles) r)
        (run_replace_profiles-Holds (profile_env env) previous next diff d x.1
          (ap (λ (y : Result StoreError UpdateDiff × Home). (y.0, x.1)) r))

  module _ (h0 : Home) where
    pub roll_back_both-Links :
        (ss : Option SourceFile) (ps : Option ProfileFile) (e : Cause) (h : Home)
        → Links h0 (roll_back_both env ss ps e h)
    unfolding roll_back_both
    roll_back_both-Links ss ps e h =
        step_ends (Links h0) (on_profiles (restore env.fails env.torn_profiles ps) h) _ _
          (λ _ h1 _.
            step_ends (Links h0) (on_sources (restore env.fails env.torn_sources ss) h1) _ _
              (λ _ _ _. tt) λ _ _ _. tt)
          λ _ h1 _.
            step_ends (Links h0) (on_sources (restore env.fails env.torn_sources ss) h1) _ _
              (λ _ _ _. tt) λ _ _ _. tt

    pub finish-Links :
        (p : Prepared) (diff : UpdateDiff) (undo : Cause → Step Failure UpdateResult) (h : Home)
        → ((e : Cause) (h : Home) → Links h0 (undo e h))
        → Agree p.source.id h0.sources h.sources
        → Holds (map id_of p.profiles) h.profiles
        → Links h0 (finish env p diff undo h)
    unfolding finish result_of linked
    finish-Links p diff undo h undone agree held =
        let save = run_op (source_env env) (update_op (linked env p)) in
        step_ends (Links h0) (on_sources save h) _ _ (λ e h' _. undone (source_failed e) h')
          λ u h' r.
            let (ss, ss', l, t, v) = changed_sources (update_op (linked env p)) h u h' r in
            let (ss0, l0, v0) =
              updated p.source.id (linked env p) h0.sources h.sources refl agree ss ss' l v in
            (
              (ss0, ss', l0, t, v0),
              subst (Holds (map id_of p.profiles)) (sym (sources_only env save h (ok u) h' r)) held,
            )
