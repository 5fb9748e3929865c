-- ===== src/Profile/Store.antt =====
-- The profile store (internal/profile/store.go, store_mutation_lock_linux.go, subscription_delete.go):
-- its file, and its operations under the lock. The lock serializes processes, so one operation is one
-- step; releasing it cannot fail.
use podlaz.Common.{
  ℕ, Bool, false, not, List, [], ◌∷◌, Option, none, some, Str, str_eq, elem, is_empty, Result, ok,
  err, if◌then◌else◌, has, sort_by,
}
use podlaz.Files.{Disk}
use podlaz.StoreJson.{Run, on_ok, call, write_file, Operation}
use podlaz.Profile.Model.{Profile, id_of}
use podlaz.Profile.Validation.{is_valid}
use podlaz.Profile.Selector.{
  StoreError, resolve, profile_by_id, lock_failed, unreadable, invalid_json, unsupported_schema,
  stored_invalid, stored_duplicate, write_failed, invalid_profile, not_found,
}
use podlaz.Profile.Changes.{
  StoreFile, Outcome, leave, store, schema_v1, is_stale, select, resolve_selected, select_if_unset,
  add, add_and_select, add_profiles, delete, delete_resolved, replace_profiles, delete_subscription,
  UpdateDiff,
}

-- What the strict decoder makes of the file's bytes, and whether more follows the document.
pub record ProfileFile : Type 0 where
  pub decoded : Option StoreFile
  pub is_trailing : Bool

-- What the operations meet: which calls fail, what a file holds that was published half written, what is a JSON object, and the lower case of a text.
pub record Env : Type 0 where
  pub fails : ℕ → Bool
  pub torn : ProfileFile → ProfileFile
  pub is_json_object : Str → Bool
  pub lower : Str → Str

abbrev pub World : Type 0
World = Disk ProfileFile

abbrev pub M : Type 0 → Type 0
M A = Run ProfileFile StoreError A

abbrev pub encode_store : StoreFile → ProfileFile
encode_store s = record {
  decoded = some (record s { schema_version = schema_v1 });
  is_trailing = false;
}

abbrev empty_store : StoreFile
empty_store = record { schema_version = schema_v1; profiles = []; selected_profile_id = [] }

unfoldable pub write_result :
    {R : Type 0}
    → Result StoreError R
    → Result Operation (Unit {0}) × World
    → Result StoreError R × World
write_result r (ok _, d) = (r, d)
write_result r (err _, d) = (err write_failed, d)

-- The selection that a list shows.
unfoldable pub shown : StoreFile → Str
shown s = if has id_of s.selected_profile_id s.profiles then s.selected_profile_id else []

module _ (env : Env) where
  open env use {fails, is_json_object, lower}

  abbrev pub valid : Profile → Bool
  valid = is_valid is_json_object

  -- The loop of `loadState` over the stored profiles.
  unfoldable pub check_stored : List Str → List Profile → Result StoreError (Unit {0})
  check_stored seen [] = ok tt
  check_stored seen (p ∷ ps) =
      let rest = check_stored (p.id ∷ seen) ps in
      if not (valid p)
      then err stored_invalid
      else if elem p.id seen
      then err stored_duplicate
      else rest

  checked : StoreFile → Result StoreError (Unit {0}) → Result StoreError StoreFile
  checked s (ok _) = ok s
  checked s (err e) = err e

  decode_store : ProfileFile → Option StoreFile → Result StoreError StoreFile
  unfolding checked check_stored
  decode_store f none = err invalid_json
  decode_store f (some s) =
      if f.is_trailing
      then err invalid_json
      else if not (str_eq s.schema_version schema_v1)
      then err unsupported_schema
      else checked s (check_stored [] s.profiles)

  unfoldable pub load_file : Option ProfileFile → Result StoreError StoreFile
  unfolding decode_store
  load_file none = ok empty_store
  load_file (some f) = decode_store f f.decoded

  -- `loadState`.
  unfoldable pub load_state : M StoreFile
  unfolding load_file
  load_state d = on_ok (λ _ d. (load_file d.target, d)) (call fails unreadable d)

  -- `lockForMutation`: create the directory, open the lock file, lock it.
  unfoldable pub lock_for_mutation : M (Unit {0})
  lock_for_mutation d =
      on_ok (λ _ d. on_ok (λ _. call fails lock_failed) (call fails lock_failed d))
        (call fails lock_failed d)

  -- `saveState`, and what is returned behind it.
  unfoldable pub save_state : {R : Type 0} → StoreFile → Result StoreError R → M R
  unfolding write_result
  save_state s r d = write_result r (write_file fails env.torn (encode_store s) d)

  unfoldable pub conclude : {R : Type 0} → Outcome R → M R
  unfolding save_state
  conclude (leave r) d = (r, d)
  conclude (store s r) d = save_state s r d

  -- One read-modify-write under the lock.
  unfoldable pub mutate : {R : Type 0} → (StoreFile → Outcome R) → M R
  unfolding lock_for_mutation load_state conclude
  mutate change d =
      on_ok (λ _ d. on_ok (λ s. conclude (change s)) (load_state d)) (lock_for_mutation d)

  -- A check of the argument before the lock.
  unfoldable pub checked_first : {R : Type 0} → Bool → M R → M R
  checked_first accepted next d = if accepted then next d else (err invalid_profile, d)

  -- `ListWithSelectedID`.
  unfoldable pub list_with_selected : M (List Profile × Str)
  unfolding load_state
  list_with_selected d = on_ok (λ s d. (ok (sort_by id_of s.profiles, shown s), d)) (load_state d)

  found : Str → Option Profile → Result StoreError Profile
  found id none = err not_found
  found id (some p) = ok p

  -- `Get`.
  unfoldable pub get : Str → M Profile
  unfolding load_state found
  get id d = on_ok (λ s d. (found id (profile_by_id s.profiles id), d)) (load_state d)

  -- `Resolve`.
  unfoldable pub resolve_stored : Str → M Profile
  unfolding load_state
  resolve_stored selector d = on_ok (λ s d. (resolve lower s.profiles selector, d)) (load_state d)

  -- `SelectedID`.
  unfoldable pub selected_id : M Str
  unfolding load_state
  selected_id d =
      on_ok (λ s d. (ok (if is_stale s then [] else s.selected_profile_id), d)) (load_state d)

  unfoldable pub run_select : Str → M Profile
  run_select selector = mutate (select lower selector)

  unfoldable pub run_resolve_selected : M Profile
  run_resolve_selected = mutate resolve_selected

  unfoldable pub run_select_if_unset : Str → M Bool
  run_select_if_unset id = mutate (select_if_unset id)

  unfoldable pub run_add : Profile → M (Unit {0})
  unfolding checked_first
  run_add p = checked_first (valid p) (mutate (add p))

  unfoldable pub run_add_and_select : Profile → M Bool
  unfolding checked_first
  run_add_and_select p = checked_first (valid p) (mutate (add_and_select p))

  unfoldable pub run_add_profiles : List Profile → M (Unit {0})
  run_add_profiles next = mutate (add_profiles valid next)

  unfoldable pub run_delete : Str → M (Unit {0})
  run_delete id = mutate (delete id)

  unfoldable pub run_delete_resolved : Str → Profile → M (Unit {0})
  run_delete_resolved selector confirmed = mutate (delete_resolved lower selector confirmed)

  unfoldable pub run_replace_profiles : List Str → List Profile → M UpdateDiff
  run_replace_profiles previous next = mutate (replace_profiles valid previous next)

  unfoldable pub run_delete_subscription : List Str → M ℕ
  run_delete_subscription ids d =
      if is_empty ids then (ok 0, d) else mutate (delete_subscription ids) d

-- A mutating operation, and the file behind a history of them.
pub data Op : Type 0 where
  select_op select_if_unset_op delete_op : Str → Op
  resolve_selected_op : Op
  add_op add_and_select_op : Profile → Op
  add_profiles_op : List Profile → Op
  delete_resolved_op : Str → Profile → Op
  replace_op : List Str → List Profile → Op
  delete_subscription_op : List Str → Op

unfoldable pub run_op : Env → Op → World → World
run_op env (select_op selector) d = (run_select env selector d).1
run_op env (select_if_unset_op id) d = (run_select_if_unset env id d).1
run_op env (delete_op id) d = (run_delete env id d).1
run_op env resolve_selected_op d = (run_resolve_selected env d).1
run_op env (add_op p) d = (run_add env p d).1
run_op env (add_and_select_op p) d = (run_add_and_select env p d).1
run_op env (add_profiles_op ps) d = (run_add_profiles env ps d).1
run_op env (delete_resolved_op selector p) d = (run_delete_resolved env selector p d).1
run_op env (replace_op previous next) d = (run_replace_profiles env previous next d).1
run_op env (delete_subscription_op ids) d = (run_delete_subscription env ids d).1

unfoldable pub run_ops : Env → List Op → World → World
unfolding run_op
run_ops env [] d = d
run_ops env (op ∷ ops) d = run_ops env ops (run_op env op d)
