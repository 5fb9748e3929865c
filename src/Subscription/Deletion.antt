-- ===== src/Subscription/Deletion.antt =====
-- Deleting a subscription with its profiles (internal/app/cli/subscription_delete_cli.go, and
-- `CountUnlinkedProfilesMatchingSubscriptionServers` of internal/profile/subscription_delete.go).
pub mod Undoing
use podlaz.Common.{
  ℕ, Bool, true, false, not, ◌&&◌, List, [], ◌∷◌, ◌++◌, map, Option, Str, str_eq, elem, is_empty,
  trim_space, Result, ok, err, if◌then◌else◌, keep,
}
use podlaz.StoreJson.{on_ok}
use podlaz.Profile.Model.{Profile}
use podlaz.Profile.Changes.{is_owned, count}
use podlaz.Profile.Store.{ProfileFile, M, load_state, run_delete_subscription}
use podlaz.Subscription.Model.{Source}
use podlaz.Subscription.Store.{get, list, run_op, delete_op}
use podlaz.Subscription.Home.{
  Cause, not_confirmed, hook_failed, source_failed, profile_failed, Failure, failed, Home, Step,
  on_sources, on_profiles, step, snapshot,
}
use podlaz.Subscription.Workflow.{Env, source_env, profile_env, roll_back_profiles, give_up}

-- `subscriptionProfileIDsReferencedByOtherSources`, of the listed sources.
unfoldable pub linked_by_others : Str → List Source → List Str
linked_by_others id [] = []
linked_by_others id (s ∷ ss) =
    let rest = linked_by_others id ss in if str_eq s.id id then rest else s.profile_ids ++ rest

module _ (env : Env) where
  open env use {fails, lower, hook_fails}

  -- `subscriptionServerMatchKey`.
  server_key : Profile → Str
  server_key p = lower (trim_space p.server)

  owned_servers : List Str → List Profile → List Str
  unfolding server_key
  owned_servers owned ps = keep (λ k. not (is_empty k)) (map server_key (keep (is_owned owned) ps))

  unfoldable pub count_matching : List Str → List Str → List Profile → ℕ
  unfolding owned_servers
  count_matching owned linked ps =
      count
        (λ p.
          not (elem p.id owned)
          && not (elem p.id linked)
          && elem (server_key p) (owned_servers owned ps))
        ps

  -- `CountUnlinkedProfilesMatchingSubscriptionServers`.
  unfoldable pub run_count_matching : List Str → List Str → M ℕ
  unfolding count_matching
  run_count_matching owned linked d =
      if is_empty owned
      then (ok 0, d)
      else on_ok (λ s d. (ok (count_matching owned linked s.profiles), d))
          (load_state (profile_env env) d)

  -- With the profiles kept.
  unfoldable pub delete_source : Source → Step Failure (ℕ × ℕ)
  unfolding on_sources
  delete_source s h =
      step (on_sources (run_op (source_env env) (delete_op s.id)) h)
        (λ e. give_up env (source_failed e)) λ _ h. (ok (0, 0), h)

  -- Behind the deletion of the profiles.
  unfoldable pub finish_delete : Source → ℕ × ℕ → Option ProfileFile → Step Failure (ℕ × ℕ)
  unfolding on_sources roll_back_profiles
  finish_delete s counts ps h =
      if hook_fails
      then roll_back_profiles env ps hook_failed h
      else step (on_sources (run_op (source_env env) (delete_op s.id)) h)
          (λ e. roll_back_profiles env ps (source_failed e)) λ _ h. (ok counts, h)

  unfoldable pub delete_profiles : Source → ℕ → Step Failure (ℕ × ℕ)
  unfolding on_profiles snapshot finish_delete
  delete_profiles s matching h = step (on_profiles (snapshot fails) h) (give_up env) λ ps h.
      step (on_profiles (run_delete_subscription (profile_env env) s.profile_ids) h)
        (λ e. give_up env (profile_failed e)) λ removed. finish_delete s (removed, matching) ps

  unfoldable pub delete_linked : Source → Step Failure (ℕ × ℕ)
  unfolding on_sources on_profiles run_count_matching delete_profiles linked_by_others
  delete_linked s h =
      step (on_sources (list (source_env env)) h) (λ e. give_up env (source_failed e))
        λ ss h.
          step (on_profiles (run_count_matching s.profile_ids (linked_by_others s.id ss)) h)
            (λ e. give_up env (profile_failed e)) λ matching. delete_profiles s matching

  unfoldable pub delete_found : Bool → Bool → Source → Step Failure (ℕ × ℕ)
  unfolding delete_source delete_linked
  delete_found false keep_profiles s h = (err (failed not_confirmed), h)
  delete_found true true s h = delete_source s h
  delete_found true false s h = delete_linked s h

  -- `runSubscriptionDelete`: the profiles that it removes, and those of the same servers that stay.
  unfoldable pub run_subscription_delete : Str → Bool → Bool → Step Failure (ℕ × ℕ)
  unfolding on_sources delete_found
  run_subscription_delete id confirmed keep_profiles h =
      step (on_sources (get (source_env env) id) h) (λ e. give_up env (source_failed e))
        (delete_found confirmed keep_profiles)
