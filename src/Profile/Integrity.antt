-- ===== src/Profile/Integrity.antt =====
-- Every state that an operation of the profile store saves is sound.
pub mod Batch
pub mod Histories
use mathlib.Core.Path.{subst}
use podlaz.Common.{
  sym, ℕ, zero, suc, ap, ◌∙◌, ◌≡◌, ◌⊎◌, inl, inr, refl, Bool, true, false, not, ◌&&◌, ◌||◌, List,
  [], ◌∷◌, ◌++◌, Option, none, some, Str, str_eq, str_eq→≡, str_eq_refl, elem, is_empty, is_some,
  any, All, Result, ok, err, arith, if◌then◌else◌, Bool-cases, ◌==◌, find, has, keep, sort_by,
  IsUnique, keep-All, All-append, find-has, has-append, has-keep, has-sort_by, IsUnique-keep,
  IsUnique-append, IsUnique-sort_by, All-sort_by, find-eq-some, unseen, cut_prefix, text,
  trim_space,
}
use podlaz.Profile.Model.{Profile, Profile-discrete, id_of}
use podlaz.Profile.Selector.{StoreError, no_selection, resolve, profile_by_id}
use podlaz.Profile.Resolution.{resolve-has}
use podlaz.Profile.Changes.{
  StoreFile, Outcome, leave, store, is_stale, clear_stale, with_profiles, select, select_found,
  save_if, selected, resolve_unselected, resolve_selected, select_if_unset, add, select_added,
  add_and_select, check_batch, add_checked, add_profiles, delete_from_state, delete, delete_found,
  delete_resolved, check_next, kept, replace_checked, drop_selection, replace_profiles, is_owned,
  delete_subscription, is_subscription, count,
}

-- The profiles of a state are valid and have different identities.
abbrev pub IsLoaded : (Profile → Bool) → StoreFile → Type 0
IsLoaded valid s = All (λ p. valid p ≡ true) s.profiles × IsUnique id_of s.profiles

-- The selection too is one of the profiles, or none.
abbrev pub IsSoundStore : (Profile → Bool) → StoreFile → Type 0
IsSoundStore valid s = IsLoaded valid s × (is_stale s ≡ false)

abbrev pub SavesSound : {R : Type 0} → (Profile → Bool) → Outcome R → Type 0
SavesSound valid (leave r) = Unit
SavesSound valid (store s r) = IsSoundStore valid s

pub clear_stale-live : (s : StoreFile) → is_stale (clear_stale s) ≡ false
unfolding clear_stale is_stale
clear_stale-live s = ground arith

pub clear_stale-profiles : (s : StoreFile) → (clear_stale s).profiles ≡ s.profiles
unfolding clear_stale
clear_stale-profiles s = ground arith

-- A state with other profiles keeps its selection if that is one of them.
has_selection :
    (s : StoreFile)
    → is_stale s ≡ false
    → (s.selected_profile_id ≡ []) ⊎ (has id_of s.selected_profile_id s.profiles ≡ true)
unfolding is_stale
has_selection s h = ground arith

select_live :
    (s : StoreFile) (id : Str)
    → has id_of id s.profiles ≡ true
    → is_stale (record s { selected_profile_id = id }) ≡ false
unfolding is_stale
select_live s id h = ground arith

single-IsUnique : (p : Profile) → IsUnique id_of (p ∷ [])
unfolding has
single-IsUnique p = (refl, tt)

module _ (valid : Profile → Bool) where
  pub if_SavesSound :
      {R : Type 0} (b : Bool) (o o' : Outcome R)
      → (b ≡ true → SavesSound valid o)
      → (b ≡ false → SavesSound valid o')
      → SavesSound valid (if b then o else o')
  if_SavesSound true o o' f g = f refl
  if_SavesSound false o o' f g = g refl

  pub clear_stale-IsSoundStore :
      (s : StoreFile) → IsLoaded valid s → IsSoundStore valid (clear_stale s)
  clear_stale-IsSoundStore s h = (
    subst (λ ps. All (λ p. valid p ≡ true) ps × IsUnique id_of ps) (sym (clear_stale-profiles s)) h,
    clear_stale-live s,
  )

  pub select_found-SavesSound :
      (lower : Str → Str) (s : StoreFile) (r : Result StoreError Profile)
      → IsLoaded valid s
      → ((p : Profile) → r ≡ ok p → has id_of p.id s.profiles ≡ true)
      → SavesSound valid (select_found lower s r)
  unfolding select_found is_stale
  select_found-SavesSound lower s (err e) h f = tt
  select_found-SavesSound lower s (ok p) h f =
      if_SavesSound (str_eq s.selected_profile_id p.id) _ _ (λ _. tt)
        λ _. (h, ground (arith, f p refl))

  pub select-SavesSound :
      (lower : Str → Str) (selector : Str) (s : StoreFile)
      → IsSoundStore valid s
      → SavesSound valid (select lower selector s)
  unfolding select
  select-SavesSound lower selector s (h, _) =
      select_found-SavesSound lower s (resolve lower s.profiles selector) h
        (resolve-has lower s.profiles selector)

  pub save_if-SavesSound :
      {R : Type 0} (b : Bool) (s : StoreFile) (r : Result StoreError R)
      → IsSoundStore valid s
      → SavesSound valid (save_if b s r)
  unfolding save_if
  save_if-SavesSound b s r h = if_SavesSound b _ _ (λ _. h) (λ _. tt)

  pub resolve_unselected-SavesSound :
      (b : Bool) (s : StoreFile) (ps : List Profile)
      → s.profiles ≡ ps
      → IsSoundStore valid s
      → SavesSound valid (resolve_unselected b s ps)
  unfolding resolve_unselected is_stale has
  resolve_unselected-SavesSound b s [] e h = save_if-SavesSound b s (err no_selection) h
  resolve_unselected-SavesSound b s (p ∷ q ∷ ps) e h = save_if-SavesSound b s (err no_selection) h
  resolve_unselected-SavesSound b s (p ∷ []) e (h, _) = (h, ground (arith, e, str_eq_refl p.id))

  pub resolve_selected-SavesSound :
      (s : StoreFile) → IsSoundStore valid s → SavesSound valid (resolve_selected s)
  unfolding resolve_selected
  resolve_selected-SavesSound s (h, _) =
      let c = clear_stale-IsSoundStore s h in
      if_SavesSound (not (is_empty (clear_stale s).selected_profile_id)) _ _
        (λ _. save_if-SavesSound (is_stale s) (clear_stale s) _ c)
        (λ _.
          resolve_unselected-SavesSound (is_stale s) (clear_stale s) (clear_stale s).profiles refl
            c)

  pub select_if_unset-SavesSound :
      (id : Str) (s : StoreFile) → IsSoundStore valid s → SavesSound valid (select_if_unset id s)
  unfolding select_if_unset
  select_if_unset-SavesSound id s (h, _) =
      let c = clear_stale-IsSoundStore s h in
      if_SavesSound (not (is_empty (clear_stale s).selected_profile_id)) _ _
        (λ _. save_if-SavesSound (is_stale s) (clear_stale s) (ok false) c)
        (λ _.
          if_SavesSound (not (has id_of id (clear_stale s).profiles)) _ _ (λ _. tt)
            (λ e. (c.0, select_live (clear_stale s) id (ground arith))))

  pub appended-IsSoundStore :
      (s : StoreFile) (next : List Profile)
      → IsSoundStore valid s
      → All (λ p. valid p ≡ true) next
      → IsUnique id_of next
      → All (λ p. has id_of p.id s.profiles ≡ false) next
      → IsSoundStore valid (with_profiles s (s.profiles ++ next))
  unfolding is_stale
  appended-IsSoundStore s next ((v, u), live) v' u' fresh = (
    (
      All-sort_by id_of (λ p. valid p ≡ true) (s.profiles ++ next)
          (All-append (λ p. valid p ≡ true) s.profiles next v v'),
      IsUnique-sort_by id_of (s.profiles ++ next)
          (IsUnique-append id_of s.profiles next u u' fresh),
    ),
    ground (
      arith,
      has-sort_by id_of s.selected_profile_id (s.profiles ++ next),
      has-append id_of s.selected_profile_id s.profiles next,
    ),
  )

  pub add-SavesSound :
      (p : Profile) (s : StoreFile)
      → valid p ≡ true
      → IsSoundStore valid s
      → SavesSound valid (add p s)
  unfolding add
  add-SavesSound p s v (h, _) =
      let c = clear_stale-IsSoundStore s h in
      if_SavesSound (has id_of p.id (clear_stale s).profiles) _ _ (λ _. tt)
        (λ e. appended-IsSoundStore (clear_stale s) (p ∷ []) c (v, tt) (single-IsUnique p) (e, tt))

  pub select_added-IsSoundStore :
      (p : Profile) (s : StoreFile) (ps : List Profile)
      → IsSoundStore valid (with_profiles s (ps ++ p ∷ []))
      → IsSoundStore valid (select_added p (with_profiles s (ps ++ p ∷ [])))
  unfolding select_added is_stale has
  select_added-IsSoundStore p s ps (h, live) =
      elim (is_empty s.selected_profile_id)
        as (λ b. IsSoundStore valid (
          if b
          then record (with_profiles s (ps ++ p ∷ [])) { selected_profile_id = p.id }
          else with_profiles s (ps ++ p ∷ []))) [
            | true ↦ (
              h,
              ground (
                arith,
                has-sort_by id_of p.id (ps ++ p ∷ []),
                has-append id_of p.id ps (p ∷ []),
                str_eq_refl p.id,
              ),
            )
            | false ↦ (h, live)
          ]

  pub add_and_select-SavesSound :
      (p : Profile) (s : StoreFile)
      → valid p ≡ true
      → IsSoundStore valid s
      → SavesSound valid (add_and_select p s)
  unfolding add_and_select
  add_and_select-SavesSound p s v (h, _) =
      let c = clear_stale-IsSoundStore s h in
      if_SavesSound (has id_of p.id (clear_stale s).profiles) _ _ (λ _. tt)
        (λ e.
          select_added-IsSoundStore p (clear_stale s) (clear_stale s).profiles
            (appended-IsSoundStore (clear_stale s) (p ∷ []) c (v, tt) (single-IsUnique p) (e, tt)))
