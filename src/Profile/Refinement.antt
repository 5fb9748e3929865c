-- ===== src/Profile/Refinement.antt =====
-- The profile store as a map from identities to profiles, and that the operations implement it.
pub mod Batch
pub mod Histories
use podlaz.Common.{
  ℕ, ◌≡◌, ◌⊎◌, inl, inr, refl, ◌∙◌, Bool, true, false, not, ◌&&◌, List, [], ◌∷◌, ◌++◌, Option, none,
  some, Str, str_eq, str_eq→≡, str_eq_refl, elem, is_empty, All, Result, ok, err, arith,
  if◌then◌else◌, Bool-cases, ◌==◌, find, has, keep, keep_found, sort_by, IsUnique, find-sort_by,
  find-append, find-none, find-keep, find-keep_key, find-has, is_some,
}
use podlaz.Profile.Model.{Profile, id_of}
use podlaz.Profile.Selector.{StoreError}
use podlaz.Profile.Changes.{
  StoreFile, Outcome, leave, store, is_stale, clear_stale, with_profiles, select, select_found,
  save_if, selected, resolve_unselected, resolve_selected, select_if_unset, add, select_added,
  add_and_select, check_batch, add_checked, add_profiles, delete_from_state, delete, delete_found,
  delete_resolved, check_next, kept, replace_checked, drop_selection, replace_profiles, is_owned,
  delete_subscription, is_subscription, count,
}
use podlaz.Profile.Store.{
  Env, valid, Op, select_op, select_if_unset_op, delete_op, resolve_selected_op, add_op,
  add_and_select_op, add_profiles_op, delete_resolved_op, replace_op, delete_subscription_op,
}

-- The abstract store.
abbrev pub ProfileMap : Type 0
ProfileMap = Str → Option Profile

abbrev pub view : StoreFile → ProfileMap
view s id = find id_of id s.profiles

-- What each operation that saves does to the map.
abbrev pub specified : Op → ProfileMap → ProfileMap
specified (select_op _) m id = m id
specified (select_if_unset_op _) m id = m id
specified resolve_selected_op m id = m id
specified (add_op p) m id = if str_eq p.id id then some p else m id
specified (add_and_select_op p) m id = if str_eq p.id id then some p else m id
specified (add_profiles_op ps) m id = if has id_of id ps then find id_of id ps else m id
specified (delete_op k) m id = if str_eq k id then none else m id
specified (delete_resolved_op _ p) m id = if str_eq p.id id then none else m id
specified (replace_op previous next) m id =
    if has id_of id next then find id_of id next else if elem id previous then none else m id
specified (delete_subscription_op ids) m id = keep_found (λ p. not (is_owned ids p)) (m id)

-- An outcome that saves, saves this map.
abbrev pub SavesView : {R : Type 0} → ProfileMap → Outcome R → Type 0
SavesView m (leave r) = Unit
SavesView m (store s r) = (id : Str) → view s id ≡ m id

pub if_SavesView :
    {R : Type 0} (m : ProfileMap) (b : Bool) (o o' : Outcome R)
    → (b ≡ true → SavesView m o)
    → (b ≡ false → SavesView m o')
    → SavesView m (if b then o else o')
if_SavesView m true o o' f g = f refl
if_SavesView m false o o' f g = g refl

pub view-clear_stale : (s : StoreFile) (id : Str) → view (clear_stale s) id ≡ view s id
unfolding clear_stale
view-clear_stale s id = ground arith

pub select-SavesView :
    (lower : Str → Str) (selector : Str) (s : StoreFile) (r : Result StoreError Profile)
    → SavesView (view s) (select_found lower s r)
unfolding select_found
select-SavesView lower selector s (err e) = tt
select-SavesView lower selector s (ok p) =
    if_SavesView (view s) (str_eq s.selected_profile_id p.id) _ _ (λ _. tt) (λ _ id. refl)

save_if-SavesView :
    {R : Type 0} (m : ProfileMap) (b : Bool) (s : StoreFile) (r : Result StoreError R)
    → ((id : Str) → view s id ≡ m id)
    → SavesView m (save_if b s r)
unfolding save_if
save_if-SavesView m b s r h = if_SavesView m b _ _ (λ _. h) (λ _. tt)

resolve_unselected-SavesView :
    (m : ProfileMap) (b : Bool) (s : StoreFile) (ps : List Profile)
    → ((id : Str) → view s id ≡ m id)
    → SavesView m (resolve_unselected b s ps)
unfolding resolve_unselected
resolve_unselected-SavesView m b s [] h = save_if-SavesView m b s _ h
resolve_unselected-SavesView m b s (p ∷ []) h = h
resolve_unselected-SavesView m b s (p ∷ q ∷ ps) h = save_if-SavesView m b s _ h

pub resolve_selected-SavesView : (s : StoreFile) → SavesView (view s) (resolve_selected s)
unfolding resolve_selected
resolve_selected-SavesView s =
    if_SavesView (view s) (not (is_empty (clear_stale s).selected_profile_id)) _ _
      (λ _. save_if-SavesView (view s) (is_stale s) (clear_stale s) _ (view-clear_stale s))
      (λ _.
        resolve_unselected-SavesView (view s) (is_stale s) (clear_stale s) _ (view-clear_stale s))

pub select_if_unset-SavesView :
    (id : Str) (s : StoreFile) → SavesView (view s) (select_if_unset id s)
unfolding select_if_unset
select_if_unset-SavesView id s =
    if_SavesView (view s) (not (is_empty (clear_stale s).selected_profile_id)) _ _
      (λ _. save_if-SavesView (view s) (is_stale s) (clear_stale s) _ (view-clear_stale s))
      (λ _.
        if_SavesView (view s) (not (has id_of id (clear_stale s).profiles)) _ _ (λ _. tt)
          (λ _. view-clear_stale s))

pub view-appended :
    (s : StoreFile) (ps next : List Profile) (id : Str)
    → view (with_profiles s (ps ++ next)) id
      ≡ (if has id_of id ps then find id_of id ps else find id_of id next)
view-appended s ps next id = find-sort_by id_of id (ps ++ next) ∙ find-append id_of id ps next

-- One profile more, of an identity that was not there.
appended_one :
    (s : StoreFile) (p : Profile) (id : Str)
    → has id_of p.id (clear_stale s).profiles ≡ false
    → view (with_profiles (clear_stale s) ((clear_stale s).profiles ++ p ∷ [])) id
      ≡ (if str_eq p.id id then some p else view s id)
unfolding find
appended_one s p id n = ground (
  arith,
  view-appended (clear_stale s) (clear_stale s).profiles (p ∷ []) id,
  view-clear_stale s id,
  str_eq→≡ p.id id,
  find-none id_of id (clear_stale s).profiles,
)

pub add-SavesView :
    (p : Profile) (s : StoreFile) → SavesView (specified (add_op p) (view s)) (add p s)
unfolding add
add-SavesView p s =
    if_SavesView _ (has id_of p.id (clear_stale s).profiles) _ _ (λ _. tt)
      (λ n id. appended_one s p id n)

view-select_added :
    (p : Profile) (s : StoreFile) (id : Str) → view (select_added p s) id ≡ view s id
unfolding select_added
view-select_added p s id = ground arith

pub add_and_select-SavesView :
    (p : Profile) (s : StoreFile) → SavesView (specified (add_op p) (view s)) (add_and_select p s)
unfolding add_and_select
add_and_select-SavesView p s =
    if_SavesView _ (has id_of p.id (clear_stale s).profiles) _ _ (λ _. tt)
      (λ n id. view-select_added p _ id ∙ appended_one s p id n)

pub delete_from_state-view :
    (k : Str) (s : StoreFile) (id : Str)
    → view (delete_from_state k s) id ≡ (if str_eq k id then none else view s id)
unfolding delete_from_state
delete_from_state-view k s id = ground (
  arith,
  find-sort_by id_of id (keep (λ p. not (str_eq p.id k)) s.profiles),
  find-keep_key id_of id (λ j. not (str_eq j k)) s.profiles,
  str_eq→≡ id k,
  str_eq→≡ k id,
  str_eq_refl k,
)
