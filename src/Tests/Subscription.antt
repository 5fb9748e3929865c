-- ===== src/Tests/Subscription.antt =====
-- A subscription that is imported and updated, with and without a failing call.
use podlaz.Common.{
  ℕ, ◌≡◌, ◌==◌, refl, Bool, true, false, [], ◌∷◌, Option, none, some, err, Str, text, to_lower,
  str_eq, str_lt, find, has, keep, sort_by, trim_space, equal_fold, is_digit, is_alnum, parse_ip4,
  split_on, cut_prefix, ℕ_discrete,
}
use podlaz.Files.{discard_temp}
use podlaz.StoreJson.{call, sync_dir, write_file, sync_parent_directory}
use podlaz.Profile.Model.{Profile-discrete, subscription, is_provider_config, provider_config_json}
use podlaz.Profile.Host.{is_ip, is_hostname}
use podlaz.Profile.Validation.{validate, is_valid, is_valid_id}
use podlaz.Profile.Changes.{
  delete_subscription, is_stale, clear_stale, check_next, replace_profiles, diff_of,
  select_if_unset, kept,
}
use podlaz.Profile.Store as Profiles
use podlaz.Subscription.Model.{Source, Url, base64, uri_list, validate_source, is_valid_source}
use podlaz.Subscription.Store.{
  delete_op, World, encode_sources, add, put, update, check_stored, load_file, load, save,
  save_changed, mutate, checked_first, run_op, write_failed, get, delete,
}
use podlaz.Subscription.Store as Sources
use podlaz.Subscription.Refinement.{specified, Settles, run_op-Settles}
use podlaz.Subscription.Home.{
  Home, failed, source_failed, on_sources, on_profiles, snapshot, restore,
}
use podlaz.Subscription.Workflow.{
  Env, Request, run_source_workflow, import_source, update_source, source_env, linked,
}
use podlaz.Subscription.Rollback.{Undone}
use podlaz.Subscription.Rollback.Runs.{import_and_update-Undone}
use podlaz.Subscription.Linking.{Links}
use podlaz.Subscription.Linking.Runs.{run_source_workflow-Links}
use podlaz.Subscription.Deletion.{run_subscription_delete}
use podlaz.Subscription.Deletion.Undoing.{Undeleted, run_subscription_delete-Undeleted}
use podlaz.Tests.Profile.{profile}

abbrev source : Source
source = record {
  id = text "vpn";
  name = text "VPN";
  url = text "https://vpn.example.org/s";
  format = base64;
  profile_ids = [];
  last_updated_at = 0;
}

abbrev parse_url : Str → Option Url
parse_url s =
    some (record { scheme = text "https"; host = text "vpn.example.org"; path = text "/s" })

abbrev env : (ℕ → Bool) → Env
env fails = record {
  fails = fails;
  is_json_object = λ _. true;
  lower = to_lower;
  parse_url = parse_url;
  torn_sources = λ f. record f { decoded = none };
  torn_profiles = λ f. record f { decoded = none };
  prepare = λ s. some (record {
    source = s;
    format = uri_list;
    profiles = profile (text "a1") (text "Fast") subscription ∷ [];
    unsupported = [];
    warnings = [];
  });
  hook_fails = false;
  now = 7;
}

abbrev nothing : Home
nothing = record { sources = none; profiles = none; leftovers = 0; calls = 0 }

abbrev no_file : World
no_file = record { target = none; leftovers = 0; calls = 0 }

abbrev unsynced : ℕ → Bool
unsynced n = n == 10

program : Unit {0}
unfolding import_source run_source_workflow to_lower str_eq str_lt find has keep sort_by trim_space
    equal_fold is_digit is_alnum parse_ip4 split_on cut_prefix ℕ_discrete discard_temp call sync_dir
    write_file Profile-discrete is_provider_config provider_config_json is_ip is_hostname validate
    is_valid is_valid_id is_stale clear_stale check_next replace_profiles diff_of kept
    select_if_unset Profiles.check_stored Profiles.load_file Profiles.load_state
    Profiles.lock_for_mutation Profiles.mutate Profiles.conclude Profiles.save_state
    Profiles.run_replace_profiles Profiles.run_select_if_unset validate_source is_valid_source add
    put update check_stored load_file load save save_changed mutate checked_first run_op on_sources
    on_profiles snapshot restore update_source get delete linked
program = tt

-- An import whose source is stored while its directory is not synced fails and leaves the source.
left_behind :
    ((import_source (env unsynced) source nothing).0
      ≡ err (failed (source_failed (write_failed sync_parent_directory))))
    × ((import_source (env unsynced) source nothing).1.sources
        ≡ some (encode_sources (source ∷ [])))
unfolding program
left_behind = (refl, refl)

-- An import lists its profile, and the profile is stored and selected.
imported :
    ((import_source (env λ _. false) source nothing).1.sources
      ≡ some (
          encode_sources (
            record source { format = uri_list; profile_ids = text "a1" ∷ []; last_updated_at = 7 }
            ∷ [])))
    × ((import_source (env λ _. false) source nothing).1.profiles
        ≡ some (
            Profiles.encode_store (record {
              schema_version = text "v1";
              profiles = profile (text "a1") (text "Fast") subscription ∷ [];
              selected_profile_id = text "a1";
            })))
unfolding program
imported = (refl, refl)

import_and_update-Undone_example :
    Undone true nothing (import_source (env unsynced) source nothing)
    × Undone false nothing (update_source (env unsynced) (text "vpn") nothing)
import_and_update-Undone_example =
    import_and_update-Undone (env unsynced) source (text "vpn") nothing

abbrev import_request : Request
import_request = record { source = source; previous_ids = []; is_new = true }

run_source_workflow-Links_example :
    Links (env λ _. false) nothing (run_source_workflow (env λ _. false) import_request nothing)
run_source_workflow-Links_example =
    run_source_workflow-Links (env λ _. false) import_request nothing

abbrev stored : World
stored = record no_file { target = some (encode_sources (source ∷ [])) }

run_op-Settles_example :
    Settles
      (source_env (env λ _. false))
      (specified (delete_op (text "vpn")))
      stored
      (run_op (source_env (env λ _. false)) (delete_op (text "vpn")) stored)
run_op-Settles_example =
    run_op-Settles (source_env (env λ _. false)) (delete_op (text "vpn")) stored

-- The home behind an import, with its calls counted from 0.
abbrev filled : Home
filled = record (import_source (env λ _. false) source nothing).1 { calls = 0 }

-- The sync of the directory behind the removal of the source from its file.
abbrev unsynced_delete : ℕ → Bool
unsynced_delete n = n == 29

-- A deletion whose directory is not synced fails, without its source, and the profiles are restored.
orphaned :
    ((run_subscription_delete (env unsynced_delete) (text "vpn") true false filled).0
      ≡ err (failed (source_failed (write_failed sync_parent_directory))))
    × ((run_subscription_delete (env unsynced_delete) (text "vpn") true false filled).1.sources
        ≡ some (encode_sources []))
    × ((run_subscription_delete (env unsynced_delete) (text "vpn") true false filled).1.profiles
        ≡ filled.profiles)
unfolding program run_subscription_delete Sources.list Profiles.run_delete_subscription
    delete_subscription
orphaned = (refl, refl, refl)

run_subscription_delete-Undeleted_example :
    Undeleted filled (run_subscription_delete (env unsynced_delete) (text "vpn") true false filled)
run_subscription_delete-Undeleted_example =
    run_subscription_delete-Undeleted (env unsynced_delete) (text "vpn") true false filled
