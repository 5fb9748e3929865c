-- ===== src/Tests/Profile.antt =====
-- A store with a manual profile and a subscription, and files that cannot be written.
use podlaz.Common.{
  ◌≡◌, refl, true, false, List, [], ◌∷◌, none, some, err, Str, text, to_lower, str_eq, str_lt, find,
  has, keep, sort_by, trim_space, equal_fold, is_digit, is_alnum, parse_ip4, split_on, cut_prefix,
  IsUnique, ℕ_discrete,
}
use podlaz.Files.{discard_temp}
use podlaz.StoreJson.{call, sync_dir, write_file}
use podlaz.Profile.Model.{
  Profile, Profile-discrete, SourceType, manual, subscription, xray, is_provider_config,
  provider_config_json,
}
use podlaz.Profile.Host.{is_ip, is_hostname}
use podlaz.Profile.Validation.{validate, is_valid, is_valid_id}
use podlaz.Profile.Selector.{
  resolve, is_positional, is_invalid_numeric, atoi, get_elem?, named, ambiguous_selector,
}
use podlaz.Profile.Changes.{
  StoreFile, schema_v1, is_stale, clear_stale, check_batch, check_next, replace_profiles, diff_of,
  select, resolve_selected, select_if_unset, add, add_and_select, add_profiles, delete,
  delete_from_state, delete_resolved, delete_subscription, kept, count,
}
use podlaz.Profile.Store.{
  Env, World, Op, add_and_select_op, select_op, replace_op, delete_op, run_op, run_ops, valid,
  encode_store, check_stored, load_file, load_state, lock_for_mutation, mutate, conclude,
  save_state, run_select, run_resolve_selected, run_select_if_unset, run_add, run_add_and_select,
  run_add_profiles, run_delete, run_delete_resolved, run_replace_profiles, run_delete_subscription,
  list_with_selected,
}
use podlaz.Profile.Integrity.Histories.{IsSoundWorld, run_ops-IsSoundWorld}
use podlaz.Profile.Refinement.Histories.{RefinesOp, run_op-RefinesOp}
use podlaz.Profile.Accounting.{Accounts, replace_profiles-Accounts}
use podlaz.Profile.Resolution.{Means, resolve-Means}

program : Unit {0}
unfolding to_lower str_eq str_lt find has keep sort_by trim_space equal_fold is_digit is_alnum
    parse_ip4 split_on cut_prefix ℕ_discrete discard_temp call sync_dir write_file Profile-discrete
    is_provider_config provider_config_json is_ip is_hostname validate is_valid is_valid_id resolve
    is_positional is_invalid_numeric atoi get_elem? named is_stale clear_stale check_batch
    check_next replace_profiles diff_of select resolve_selected select_if_unset add add_and_select
    add_profiles delete delete_from_state delete_resolved delete_subscription kept count run_op
    run_ops check_stored load_file load_state lock_for_mutation mutate conclude save_state
    run_select run_resolve_selected run_select_if_unset run_add run_add_and_select run_add_profiles
    run_delete run_delete_resolved run_replace_profiles run_delete_subscription list_with_selected
program = tt

abbrev pub profile : Str → Str → SourceType → Profile
profile id name source = record {
  id = id;
  name = name;
  source = source;
  engine = xray;
  server = text "vpn.example.org";
  port = 443;
  protocol = text "vless";
  user_identity = text "u";
  transport = [];
  security = [];
  encryption = [];
  flow = [];
  server_name = [];
  alpn = [];
  fingerprint = [];
  path = [];
  host_header = [];
  service_name = [];
  reality_public_key = [];
  reality_short_id = [];
  reality_spider_x = [];
}

abbrev env : Env
env = record {
  fails = λ _. false;
  torn = λ f. record f { decoded = none };
  is_json_object = λ _. true;
  lower = to_lower;
}

abbrev no_file : World
no_file = record { target = none; leftovers = 0; calls = 0 }

abbrev own : Profile
own = profile (text "home") (text "Home") manual

abbrev first : Profile
first = profile (text "a1") (text "Fast") subscription

abbrev second : Profile
second = profile (text "b2") (text "fast") subscription

abbrev empty_state : StoreFile
empty_state = record { schema_version = schema_v1; profiles = []; selected_profile_id = [] }

abbrev ops : List Op
ops =
    add_and_select_op own
    ∷ replace_op [] (second ∷ first ∷ [])
    ∷ select_op (text "2")
    ∷ replace_op (text "a1" ∷ text "b2" ∷ []) (first ∷ [])
    ∷ []

abbrev final_state : StoreFile
final_state = record {
  schema_version = schema_v1;
  profiles = first ∷ own ∷ [];
  selected_profile_id = [];
}

-- The replacement removes the selected profile.
history : (run_ops env ops no_file).target ≡ some (encode_store final_state)
unfolding program
history = refl

empty_IsSoundWorld : IsSoundWorld env no_file
unfolding program
empty_IsSoundWorld = (empty_state, refl, ((tt, tt), refl))

run_ops-IsSoundWorld_example : IsSoundWorld env (run_ops env ops no_file)
run_ops-IsSoundWorld_example = run_ops-IsSoundWorld env ops no_file empty_IsSoundWorld

run_op-RefinesOp_example :
    RefinesOp env
      (delete_op (text "home"))
      (run_ops env ops no_file)
      (run_op env (delete_op (text "home")) (run_ops env ops no_file))
run_op-RefinesOp_example = run_op-RefinesOp env (delete_op (text "home")) (run_ops env ops no_file)

abbrev two_sources : StoreFile
two_sources = record empty_state { profiles = first ∷ second ∷ own ∷ [] }

two_sources-IsUnique : IsUnique (λ (p : Profile). p.id) two_sources.profiles
unfolding program
two_sources-IsUnique = (refl, (refl, (refl, tt)))

abbrev renamed : Profile
renamed = profile (text "b2") (text "Slow") subscription

replace_profiles-Accounts_example :
    Accounts
      (valid env)
      (text "a1" ∷ text "b2" ∷ [])
      (renamed ∷ [])
      two_sources
      (replace_profiles (valid env) (text "a1" ∷ text "b2" ∷ []) (renamed ∷ []) two_sources)
replace_profiles-Accounts_example =
    replace_profiles-Accounts (valid env) (text "a1" ∷ text "b2" ∷ []) (renamed ∷ []) two_sources
      two_sources-IsUnique

resolve-Means_example :
    Means to_lower two_sources.profiles (trim_space (text " HOME ")) own
    × (has (λ (p : Profile). p.id) own.id two_sources.profiles ≡ true)
unfolding program
resolve-Means_example = resolve-Means to_lower two_sources.profiles (text " HOME ") own refl

ambiguous : resolve to_lower two_sources.profiles (text "FAST") ≡ err ambiguous_selector
unfolding program
ambiguous = refl
