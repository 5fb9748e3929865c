-- ===== src/Profile/Integrity/Batch.antt =====
-- The operations on many profiles, and the deletions.
use podlaz.Common.{
  ◌∙◌, ◌≡◌, refl, Bool, true, false, not, ◌&&◌, List, [], ◌∷◌, Str, str_eq, str_eq→≡, str_eq_refl,
  elem, same, All, Result, ok, err, arith, ◌==◌, has, keep, IsUnique, keep-All, All-append,
  has-sort_by, IsUnique-keep, IsUnique-append, IsUnique-sort_by, All-sort_by, unseen,
}
use podlaz.Profile.Model.{Profile, Profile-discrete, id_of}
use podlaz.Profile.Selector.{StoreError}
use podlaz.Profile.Changes.{
  StoreFile, is_stale, clear_stale, with_profiles, check_batch, add_checked, add_profiles,
  delete_from_state, delete, delete_found, delete_resolved, check_next, kept, replace_checked,
  drop_selection, replace_profiles, is_owned, delete_subscription, count,
}
use podlaz.Profile.Integrity.{
  IsLoaded, IsSoundStore, SavesSound, if_SavesSound, clear_stale-IsSoundStore,
  appended-IsSoundStore,
}

-- What the loops over a batch show of it.
abbrev pub IsFresh : (Profile → Bool) → List Profile → List Str → List Profile → Type 0
IsFresh valid existing seen next =
    All (λ p. valid p ≡ true) next
    × IsUnique id_of next
    × All (λ p. elem p.id seen ≡ false) next
    × All (λ p. has id_of p.id existing ≡ false) next

module _ (valid : Profile → Bool) where
  pub check_batch-IsFresh :
      (existing : List Profile) (seen : List Str) (next : List Profile)
      → check_batch valid existing seen next ≡ ok tt
      → IsFresh valid existing seen next
  unfolding check_batch
  check_batch-IsFresh existing seen [] h = (tt, tt, tt, tt)
  check_batch-IsFresh existing seen (p ∷ ps) h =
      let (v, u, s, f) = check_batch-IsFresh existing (p.id ∷ seen) ps (ground arith) in
      let (a, rest) = unseen id_of p.id seen ps s in
      ((ground arith, v), (a, u), (ground arith, rest), (ground arith, f))

  add_checked-SavesSound :
      (next : List Profile) (s : StoreFile) (r : Result StoreError Unit)
      → IsSoundStore valid s
      → check_batch valid s.profiles [] next ≡ r
      → SavesSound valid (add_checked valid next s r)
  unfolding add_checked
  add_checked-SavesSound next s (err e) h c = tt
  add_checked-SavesSound next s (ok _) h c =
      let (v, u, _, f) = check_batch-IsFresh s.profiles [] next c in
      appended-IsSoundStore valid s next h v u f

  pub add_profiles-SavesSound :
      (next : List Profile) (s : StoreFile)
      → IsSoundStore valid s
      → SavesSound valid (add_profiles valid next s)
  unfolding add_profiles
  add_profiles-SavesSound next s (h, _) =
      add_checked-SavesSound next (clear_stale s)
        (check_batch valid (clear_stale s).profiles [] next) (clear_stale-IsSoundStore valid s h)
        refl

  -- Some of the profiles, in order.
  kept-IsLoaded :
      (p : Profile → Bool) (s : StoreFile)
      → IsLoaded valid s
      → IsLoaded valid (with_profiles s (keep p s.profiles))
  kept-IsLoaded p s (v, u) = (
    All-sort_by id_of (λ q. valid q ≡ true) (keep p s.profiles)
        (keep-All (λ q. valid q ≡ true) p s.profiles v),
    IsUnique-sort_by id_of (keep p s.profiles) (IsUnique-keep id_of p s.profiles u),
  )

  has-keep_other :
      (id sel : Str) (ps : List Profile)
      → str_eq sel id ≡ false
      → has id_of sel (keep (λ p. not (str_eq p.id id)) ps) ≡ has id_of sel ps
  unfolding has keep
  has-keep_other id sel [] n = refl
  has-keep_other id sel (p ∷ ps) n =
      ground
        (arith, has-keep_other id sel ps n, str_eq→≡ p.id id, str_eq→≡ p.id sel, str_eq_refl id)

  delete_from_state-IsSoundStore :
      (id : Str) (s : StoreFile)
      → IsSoundStore valid s
      → IsSoundStore valid (delete_from_state id s)
  unfolding delete_from_state is_stale
  delete_from_state-IsSoundStore id s (h, live) = (
    kept-IsLoaded (λ p. not (str_eq p.id id)) s h,
    ground (
      arith,
      has-sort_by id_of s.selected_profile_id (keep (λ p. not (str_eq p.id id)) s.profiles),
      has-keep_other id s.selected_profile_id s.profiles,
    ),
  )

  pub delete-SavesSound :
      (id : Str) (s : StoreFile) → IsSoundStore valid s → SavesSound valid (delete id s)
  unfolding delete
  delete-SavesSound id s h =
      if_SavesSound valid (has id_of id s.profiles) _ _ (λ _. delete_from_state-IsSoundStore id s h)
        (λ _. tt)

  delete_found-SavesSound :
      (lower : Str → Str) (confirmed : Profile) (s : StoreFile) (r : Result StoreError Profile)
      → IsSoundStore valid s
      → SavesSound valid (delete_found lower confirmed s r)
  unfolding delete_found
  delete_found-SavesSound lower confirmed s (err e) h = tt
  delete_found-SavesSound lower confirmed s (ok current) h =
      if_SavesSound valid (not (same Profile-discrete current confirmed)) _ _ (λ _. tt)
        (λ _.
          if_SavesSound valid (has id_of confirmed.id s.profiles) _ _
            (λ _. delete_from_state-IsSoundStore confirmed.id s h) (λ _. tt))

  pub delete_resolved-SavesSound :
      (lower : Str → Str) (selector : Str) (confirmed : Profile) (s : StoreFile)
      → IsSoundStore valid s
      → SavesSound valid (delete_resolved lower selector confirmed s)
  unfolding delete_resolved
  delete_resolved-SavesSound lower selector confirmed s h =
      delete_found-SavesSound lower confirmed s _ h

  pub delete_subscription-SavesSound :
      (ids : List Str) (s : StoreFile)
      → IsSoundStore valid s
      → SavesSound valid (delete_subscription ids s)
  unfolding delete_subscription
  delete_subscription-SavesSound ids s (h, _) =
      if_SavesSound valid (count (is_owned ids) s.profiles == 0) _ _ (λ _. tt)
        (λ _. clear_stale-IsSoundStore valid _ (kept-IsLoaded (λ p. not (is_owned ids p)) s h))

  -- What the loop of a replacement shows: a new profile is of nobody else.
  abbrev pub IsReplacement : List Str → List Profile → List Str → List Profile → Type 0
  IsReplacement previous current seen next =
      All (λ p. valid p ≡ true) next
      × IsUnique id_of next
      × All (λ p. elem p.id seen ≡ false) next
      × All (λ p. (has id_of p.id current && not (elem p.id previous)) ≡ false) next

  pub check_next-IsReplacement :
      (previous : List Str) (current : List Profile) (seen : List Str) (next : List Profile)
      → check_next valid previous current seen next ≡ ok tt
      → IsReplacement previous current seen next
  unfolding check_next
  check_next-IsReplacement previous current seen [] h = (tt, tt, tt, tt)
  check_next-IsReplacement previous current seen (p ∷ ps) h =
      let (v, u, s, f) =
        check_next-IsReplacement previous current (p.id ∷ seen) ps (ground arith) in
      let (a, rest) = unseen id_of p.id seen ps s in
      ((ground arith, v), (a, u), (ground arith, rest), (ground arith, f))

  pub has-kept :
      (previous : List Str) (id : Str) (ps : List Profile)
      → has id_of id (kept valid previous ps) ≡ (has id_of id ps && not (elem id previous))
  unfolding has kept keep
  has-kept previous id [] = refl
  has-kept previous id (p ∷ ps) = ground (arith, has-kept previous id ps, str_eq→≡ p.id id)

  pub kept_fresh :
      (previous : List Str) (current next : List Profile)
      → All (λ p. (has id_of p.id current && not (elem p.id previous)) ≡ false) next
      → All (λ p. has id_of p.id (kept valid previous current) ≡ false) next
  kept_fresh previous current [] h = tt
  kept_fresh previous current (p ∷ ps) (a, h) =
      (has-kept previous p.id current ∙ a, kept_fresh previous current ps h)

  replace_checked-SavesSound :
      (previous : List Str) (next : List Profile) (s : StoreFile) (r : Result StoreError Unit)
      → IsSoundStore valid s
      → check_next valid previous s.profiles [] next ≡ r
      → SavesSound valid (replace_checked valid previous next s r)
  unfolding replace_checked drop_selection kept
  replace_checked-SavesSound previous next s (err e) h c = tt
  replace_checked-SavesSound previous next s (ok _) ((v, u), _) c =
      let (v', u', _, f) = check_next-IsReplacement previous s.profiles [] next c in
      clear_stale-IsSoundStore valid _ (
        All-sort_by id_of (λ p. valid p ≡ true) _
            (All-append (λ p. valid p ≡ true) (kept valid previous s.profiles) next
              (keep-All (λ p. valid p ≡ true) _ s.profiles v) v'),
        IsUnique-sort_by id_of _ (
            IsUnique-append id_of (kept valid previous s.profiles) next
              (IsUnique-keep id_of _ s.profiles u) u' (kept_fresh previous s.profiles next f)),
      )

  pub replace_profiles-SavesSound :
      (previous : List Str) (next : List Profile) (s : StoreFile)
      → IsSoundStore valid s
      → SavesSound valid (replace_profiles valid previous next s)
  unfolding replace_profiles
  replace_profiles-SavesSound previous next s h =
      replace_checked-SavesSound previous next s (check_next valid previous s.profiles [] next) h
        refl
