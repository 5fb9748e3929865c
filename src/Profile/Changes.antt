-- ===== src/Profile/Changes.antt =====
-- What each operation of the profile store makes of the state that it has loaded
-- (internal/profile/store.go, subscription_delete.go).
use podlaz.Common.{
  ℕ, suc, Bool, true, false, not, ◌&&◌, List, [], ◌∷◌, ◌++◌, Option, none, some, Str, text, str_eq,
  is_empty, elem, Result, ok, err, if◌then◌else◌, find, has, keep, sort_by, same, ◌==◌,
}
use podlaz.Profile.Model.{Profile, Profile-discrete, SourceType, subscription, id_of}
use podlaz.Profile.Selector.{
  StoreError, resolve, profile_by_id, not_found, already_exists, no_selection, profile_changed,
  invalid_profile, duplicate_in_batch, wrong_source, foreign_collision,
}

pub record StoreFile : Type 0 where
  pub schema_version : Str
  pub profiles : List Profile
  pub selected_profile_id : Str

abbrev pub schema_v1 : Str
schema_v1 = text "v1"

-- What an operation does with the loaded state: it returns, or it saves a new state first.
pub data Outcome (R : Type 0) : Type 0 where
  leave : Result StoreError R → Outcome R
  store : StoreFile → Result StoreError R → Outcome R

-- `clearStaleSelection`, and whether it changed the state.
unfoldable pub is_stale : StoreFile → Bool
is_stale s =
    not (is_empty s.selected_profile_id) && not (has id_of s.selected_profile_id s.profiles)

unfoldable pub clear_stale : StoreFile → StoreFile
unfolding is_stale
clear_stale s = if is_stale s then record s { selected_profile_id = [] } else s

-- A state with other profiles, in order.
abbrev pub with_profiles : StoreFile → List Profile → StoreFile
with_profiles s ps = record s { profiles = sort_by id_of ps }

module _ (lower : Str → Str) where
  unfoldable pub select_found : StoreFile → Result StoreError Profile → Outcome Profile
  select_found s (err e) = leave (err e)
  select_found s (ok p) =
      if str_eq s.selected_profile_id p.id
      then leave (ok p)
      else store (record s { selected_profile_id = p.id }) (ok p)

  -- `Select`.
  unfoldable pub select : Str → StoreFile → Outcome Profile
  unfolding select_found
  select selector s = select_found s (resolve lower s.profiles selector)

unfoldable pub save_if : {R : Type 0} → Bool → StoreFile → Result StoreError R → Outcome R
save_if changed s r = if changed then store s r else leave r

unfoldable pub selected : StoreFile → Option Profile → Result StoreError Profile
selected s none = err no_selection
selected s (some p) = ok p

-- `ResolveSelected` without a selection: the only profile is selected.
unfoldable pub resolve_unselected : Bool → StoreFile → List Profile → Outcome Profile
unfolding save_if
resolve_unselected changed s (p ∷ []) = store (record s { selected_profile_id = p.id }) (ok p)
resolve_unselected changed s [] = save_if changed s (err no_selection)
resolve_unselected changed s (p ∷ q ∷ ps) = save_if changed s (err no_selection)

-- `ResolveSelected`.
unfoldable pub resolve_selected : StoreFile → Outcome Profile
unfolding save_if selected resolve_unselected clear_stale
resolve_selected s =
    let s' = clear_stale s in
    if not (is_empty s'.selected_profile_id)
    then save_if (is_stale s) s' (selected s' (profile_by_id s'.profiles s'.selected_profile_id))
    else resolve_unselected (is_stale s) s' s'.profiles

-- `SelectIfUnset`.
unfoldable pub select_if_unset : Str → StoreFile → Outcome Bool
unfolding save_if clear_stale
select_if_unset id s =
    let s' = clear_stale s in
    if not (is_empty s'.selected_profile_id)
    then save_if (is_stale s) s' (ok false)
    else if not (has id_of id s'.profiles)
    then leave (err not_found)
    else store (record s' { selected_profile_id = id }) (ok true)

-- `Add` behind its check.
unfoldable pub add : Profile → StoreFile → Outcome (Unit {0})
unfolding clear_stale
add p s =
    let s' = clear_stale s in
    if has id_of p.id s'.profiles
    then leave (err already_exists)
    else store (with_profiles s' (s'.profiles ++ p ∷ [])) (ok tt)

unfoldable pub select_added : Profile → StoreFile → StoreFile
select_added p s =
    if is_empty s.selected_profile_id then record s { selected_profile_id = p.id } else s

-- `AddAndSelectIfUnset` behind its check.
unfoldable pub add_and_select : Profile → StoreFile → Outcome Bool
unfolding clear_stale select_added
add_and_select p s =
    let s' = clear_stale s in
    if has id_of p.id s'.profiles
    then leave (err already_exists)
    else store (select_added p (with_profiles s' (s'.profiles ++ p ∷ [])))
        (ok (is_empty s'.selected_profile_id))

module _ (is_valid : Profile → Bool) where
  -- The loop of `AddProfiles`: `seen` are the identities of the batch so far.
  unfoldable pub check_batch : List Profile → List Str → List Profile → Result StoreError (Unit {0})
  check_batch existing seen [] = ok tt
  check_batch existing seen (p ∷ ps) =
      let rest = check_batch existing (p.id ∷ seen) ps in
      if not (is_valid p)
      then err invalid_profile
      else if elem p.id seen
      then err duplicate_in_batch
      else if has id_of p.id existing
      then err already_exists
      else rest

  unfoldable pub add_checked :
      List Profile → StoreFile → Result StoreError (Unit {0}) → Outcome (Unit {0})
  add_checked next s (err e) = leave (err e)
  add_checked next s (ok _) = store (with_profiles s (s.profiles ++ next)) (ok tt)

  -- `AddProfiles`.
  unfoldable pub add_profiles : List Profile → StoreFile → Outcome (Unit {0})
  unfolding add_checked clear_stale
  add_profiles next s =
      let s' = clear_stale s in add_checked next s' (check_batch s'.profiles [] next)

-- `deleteProfileFromState`, where the identity is there.
unfoldable pub delete_from_state : Str → StoreFile → StoreFile
delete_from_state id s = record (with_profiles s (keep (λ p. not (str_eq p.id id)) s.profiles)) {
  selected_profile_id = if str_eq s.selected_profile_id id then [] else s.selected_profile_id;
}

-- `Delete`.
unfoldable pub delete : Str → StoreFile → Outcome (Unit {0})
unfolding delete_from_state
delete id s =
    if has id_of id s.profiles
    then store (delete_from_state id s) (ok tt)
    else leave (err not_found)

module _ (lower : Str → Str) where
  unfoldable pub delete_found : Profile → StoreFile → Result StoreError Profile → Outcome (Unit {0})
  unfolding delete_from_state
  delete_found confirmed s (err e) = leave (err profile_changed)
  delete_found confirmed s (ok current) =
      if not (same Profile-discrete current confirmed)
      then leave (err profile_changed)
      else if has id_of confirmed.id s.profiles
      then store (delete_from_state confirmed.id s) (ok tt)
      else leave (err profile_changed)

  -- `DeleteResolved`.
  unfoldable pub delete_resolved : Str → Profile → StoreFile → Outcome (Unit {0})
  unfolding delete_found
  delete_resolved selector confirmed s =
      delete_found confirmed s (resolve lower s.profiles selector)

abbrev pub is_subscription : SourceType → Bool
is_subscription subscription = true
is_subscription _ = false

pub record UpdateDiff : Type 0 where
  pub imported : ℕ
  pub updated : ℕ
  pub unchanged : ℕ
  pub removed : ℕ

module _ (is_valid : Profile → Bool) (previous : List Str) where
  -- The loop over the new profiles.
  unfoldable pub check_next : List Profile → List Str → List Profile → Result StoreError (Unit {0})
  check_next current seen [] = ok tt
  check_next current seen (p ∷ ps) =
      let rest = check_next current (p.id ∷ seen) ps in
      if not (is_valid p)
      then err invalid_profile
      else if not (is_subscription p.source)
      then err wrong_source
      else if elem p.id seen
      then err duplicate_in_batch
      else if has id_of p.id current && not (elem p.id previous)
      then err foreign_collision
      else rest

  -- The profiles of others, which stay.
  unfoldable pub kept : List Profile → List Profile
  kept current = keep (λ p. not (elem p.id previous)) current

  unfoldable pub count_removed : List Profile → List Profile → ℕ
  count_removed next [] = 0
  count_removed next (p ∷ ps) =
      let rest = count_removed next ps in
      if elem p.id previous && not (has id_of p.id next) then suc rest else rest

  unfoldable pub count_one : Option Profile → Profile → UpdateDiff → UpdateDiff
  count_one none p d = record d { imported = suc d.imported }
  count_one (some old) p d =
      if same Profile-discrete old p
      then record d { unchanged = suc d.unchanged }
      else record d { updated = suc d.updated }

  unfoldable pub count_next : List Profile → List Profile → UpdateDiff → UpdateDiff
  unfolding count_one
  count_next current [] d = d
  count_next current (p ∷ ps) d = count_next current ps (count_one (find id_of p.id current) p d)

  unfoldable pub diff_of : List Profile → List Profile → UpdateDiff
  unfolding count_removed count_next
  diff_of current next =
      count_next current next
        (record { imported = 0; updated = 0; unchanged = 0; removed = count_removed next current })

  unfoldable pub drop_selection : StoreFile → StoreFile
  unfolding clear_stale
  drop_selection s = clear_stale s

  unfoldable pub replace_checked :
      List Profile → StoreFile → Result StoreError (Unit {0}) → Outcome UpdateDiff
  unfolding diff_of kept drop_selection
  replace_checked next s (err e) = leave (err e)
  replace_checked next s (ok _) =
      store (drop_selection (with_profiles s (kept s.profiles ++ next)))
        (ok (diff_of s.profiles next))

  -- `ReplaceSubscriptionProfiles`.
  unfoldable pub replace_profiles : List Profile → StoreFile → Outcome UpdateDiff
  unfolding replace_checked
  replace_profiles next s = replace_checked next s (check_next s.profiles [] next)

unfoldable pub is_owned : List Str → Profile → Bool
is_owned ids p = elem p.id ids && is_subscription p.source

unfoldable pub count : (Profile → Bool) → List Profile → ℕ
count p [] = 0
count p (x ∷ xs) = let rest = count p xs in if p x then suc rest else rest

-- `DeleteSubscriptionProfiles` for identities that are not none at all.
unfoldable pub delete_subscription : List Str → StoreFile → Outcome ℕ
unfolding is_owned count clear_stale
delete_subscription ids s =
    if count (is_owned ids) s.profiles == 0
    then leave (ok 0)
    else store (clear_stale (with_profiles s (keep (λ p. not (is_owned ids p)) s.profiles)))
        (ok (count (is_owned ids) s.profiles))
