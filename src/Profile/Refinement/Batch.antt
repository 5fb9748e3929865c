-- ===== src/Profile/Refinement/Batch.antt =====
-- The operations on many profiles and the deletions, on the map of the store.
use podlaz.Common.{
  ◌≡◌, refl, ◌∙◌, Bool, false, not, ◌&&◌, List, [], ◌∷◌, ◌++◌, none, Str, str_eq→≡, elem, All,
  Result, ok, err, arith, if◌then◌else◌, ◌==◌, find, has, keep, IsUnique, find-sort_by, find-none,
  find-keep, find-keep_key, same,
}
use podlaz.Profile.Model.{Profile, Profile-discrete, id_of}
use podlaz.Profile.Selector.{StoreError}
use podlaz.Profile.Changes.{
  StoreFile, clear_stale, with_profiles, check_batch, add_checked, add_profiles, delete,
  delete_found, delete_resolved, check_next, kept, replace_checked, drop_selection,
  replace_profiles, is_owned, delete_subscription, count,
}
use podlaz.Profile.Store.{
  delete_op, add_profiles_op, delete_resolved_op, replace_op, delete_subscription_op,
}
use podlaz.Profile.Integrity.Batch.{check_next-IsReplacement, check_batch-IsFresh, kept_fresh}
use podlaz.Profile.Refinement.{
  view, specified, SavesView, if_SavesView, view-clear_stale, view-appended, delete_from_state-view,
}

pub delete-SavesView :
    (k : Str) (s : StoreFile) → SavesView (specified (delete_op k) (view s)) (delete k s)
unfolding delete
delete-SavesView k s =
    if_SavesView _ (has id_of k s.profiles) _ _ (λ _. delete_from_state-view k s) (λ _. tt)

delete_found-SavesView :
    (lower : Str → Str) (selector : Str) (p : Profile) (s : StoreFile)
    (r : Result StoreError Profile)
    → SavesView (specified (delete_resolved_op selector p) (view s)) (delete_found lower p s r)
unfolding delete_found
delete_found-SavesView lower selector p s (err e) = tt
delete_found-SavesView lower selector p s (ok current) =
    if_SavesView _ (not (same Profile-discrete current p)) _ _ (λ _. tt)
      (λ _.
        if_SavesView _ (has id_of p.id s.profiles) _ _ (λ _. delete_from_state-view p.id s)
          (λ _. tt))

pub delete_resolved-SavesView :
    (lower : Str → Str) (selector : Str) (p : Profile) (s : StoreFile)
    → SavesView
        (specified (delete_resolved_op selector p) (view s))
        (delete_resolved lower selector p s)
unfolding delete_resolved
delete_resolved-SavesView lower selector p s = delete_found-SavesView lower selector p s _

one_side :
    (id : Str) (ps next : List Profile)
    → All (λ p. has id_of p.id ps ≡ false) next
    → (has id_of id ps && has id_of id next) ≡ false
unfolding has
one_side id ps [] h = ground arith
one_side id ps (p ∷ next) (a, h) = ground (arith, one_side id ps next h, str_eq→≡ p.id id)

-- New profiles before the old ones, since no identity is on both sides.
next_first :
    (ps next : List Profile) (id : Str)
    → All (λ p. has id_of p.id ps ≡ false) next
    → (if has id_of id ps then find id_of id ps else find id_of id next)
      ≡ (if has id_of id next then find id_of id next else find id_of id ps)
next_first ps next id h =
    ground (arith, one_side id ps next h, find-none id_of id ps, find-none id_of id next)

module _ (valid : Profile → Bool) where
  add_checked-SavesView :
      (next : List Profile) (s : StoreFile) (r : Result StoreError Unit)
      → check_batch valid (clear_stale s).profiles [] next ≡ r
      → SavesView
          (specified (add_profiles_op next) (view s))
          (add_checked valid next (clear_stale s) r)
  unfolding add_checked
  add_checked-SavesView next s (err e) c = tt
  add_checked-SavesView next s (ok _) c = λ id.
      let (_, _, _, f) = check_batch-IsFresh valid (clear_stale s).profiles [] next c in
      ground (
        arith,
        view-appended (clear_stale s) (clear_stale s).profiles next id,
        next_first (clear_stale s).profiles next id f,
        view-clear_stale s id,
      )

  pub add_profiles-SavesView :
      (next : List Profile) (s : StoreFile)
      → SavesView (specified (add_profiles_op next) (view s)) (add_profiles valid next s)
  unfolding add_profiles
  add_profiles-SavesView next s = add_checked-SavesView next s _ refl

  find-kept :
      (previous : List Str) (ps : List Profile) (id : Str)
      → find id_of id (kept valid previous ps)
        ≡ (if elem id previous then none else find id_of id ps)
  unfolding kept
  find-kept previous ps id = ground (arith, find-keep_key id_of id (λ j. not (elem j previous)) ps)

  replace_checked-SavesView :
      (previous : List Str) (next : List Profile) (s : StoreFile) (r : Result StoreError Unit)
      → check_next valid previous s.profiles [] next ≡ r
      → SavesView
          (specified (replace_op previous next) (view s))
          (replace_checked valid previous next s r)
  unfolding replace_checked drop_selection
  replace_checked-SavesView previous next s (err e) c = tt
  replace_checked-SavesView previous next s (ok _) c = λ id.
      let (_, _, _, f) = check_next-IsReplacement valid previous s.profiles [] next c in
      ground (
        arith,
        view-clear_stale (with_profiles s (kept valid previous s.profiles ++ next)) id,
        view-appended s (kept valid previous s.profiles) next id,
        next_first (kept valid previous s.profiles) next id
            (kept_fresh valid previous s.profiles next f),
        find-kept previous s.profiles id,
      )

  pub replace_profiles-SavesView :
      (previous : List Str) (next : List Profile) (s : StoreFile)
      → SavesView
          (specified (replace_op previous next) (view s))
          (replace_profiles valid previous next s)
  unfolding replace_profiles
  replace_profiles-SavesView previous next s = replace_checked-SavesView previous next s _ refl

pub delete_subscription-SavesView :
    (ids : List Str) (s : StoreFile)
    → IsUnique id_of s.profiles
    → SavesView (specified (delete_subscription_op ids) (view s)) (delete_subscription ids s)
unfolding delete_subscription
delete_subscription-SavesView ids s u =
    if_SavesView _ (count (is_owned ids) s.profiles == 0) _ _ (λ _. tt)
      λ _ id.
        let ps = keep (λ p. not (is_owned ids p)) s.profiles in
        view-clear_stale (with_profiles s ps) id
        ∙ (find-sort_by id_of id ps ∙ find-keep id_of id (λ p. not (is_owned ids p)) s.profiles u)
