-- ===== src/Profile/Refinement/Histories.antt =====
-- What one operation of the profile store does to its file, as an operation on the map.
use podlaz.Common.{
  ◌≡◌, ◌⊎◌, inl, inr, refl, ap, ◌∙◌, Bool, true, false, List, [], ◌∷◌, Option, none, some, Str,
  elem, All, Result, ok, err, arith, IsUnique, unseen,
}
use podlaz.StoreJson.{on_ok, write_file, write_file-target}
use podlaz.Profile.Model.{Profile, id_of}
use podlaz.Profile.Selector.{resolve}
use podlaz.Profile.Changes.{StoreFile, Outcome, leave, store, select, add, add_and_select}
use podlaz.Profile.Store.{
  ProfileFile, Env, World, M, encode_store, valid, check_stored, load_file, load_state,
  lock_for_mutation, save_state, conclude, mutate, checked_first, run_select, run_resolve_selected,
  run_select_if_unset, run_add, run_add_and_select, run_add_profiles, run_delete,
  run_delete_resolved, run_replace_profiles, run_delete_subscription, Op, select_op,
  select_if_unset_op, delete_op, resolve_selected_op, add_op, add_and_select_op, add_profiles_op,
  delete_resolved_op, replace_op, delete_subscription_op, run_op,
}
use podlaz.Profile.Integrity.Histories.{
  write_result-world, lock_for_mutation-target, load_state-target, load_state-load_file,
}
use podlaz.Profile.Refinement.{
  ProfileMap, view, specified, SavesView, select-SavesView, resolve_selected-SavesView,
  select_if_unset-SavesView, add-SavesView, add_and_select-SavesView,
}
use podlaz.Profile.Refinement.Batch.{
  add_profiles-SavesView, delete-SavesView, delete_resolved-SavesView, replace_profiles-SavesView,
  delete_subscription-SavesView,
}

module _ (env : Env) where
  check_stored-IsUnique :
      (seen : List Str) (ps : List Profile)
      → check_stored env seen ps ≡ ok tt
      → IsUnique id_of ps × All (λ p. elem p.id seen ≡ false) ps
  unfolding check_stored
  check_stored-IsUnique seen [] h = (tt, tt)
  check_stored-IsUnique seen (p ∷ ps) h =
      let (u, s) = check_stored-IsUnique (p.id ∷ seen) ps (ground arith) in
      let (a, rest) = unseen id_of p.id seen ps s in ((a, u), (ground arith, rest))

  load_file-checked :
      (o : Option ProfileFile) (s : StoreFile)
      → load_file env o ≡ ok s
      → check_stored env [] s.profiles ≡ ok tt
  unfolding load_file
  load_file-checked none s h = ground arith
  load_file-checked (some f) s h = ground arith

  load_file-IsUnique :
      (o : Option ProfileFile) (s : StoreFile) → load_file env o ≡ ok s → IsUnique id_of s.profiles
  load_file-IsUnique o s h = (check_stored-IsUnique [] s.profiles (load_file-checked o s h)).0

  -- The file stays, or it is replaced by one that holds the specified map.
  abbrev pub Refines : ProfileMap → World → World → Type 0
  Refines m d d' =
      (d'.target ≡ d.target)
      ⊎ ((s : StoreFile) × (d'.target ≡ some (encode_store s)) × ((id : Str) → view s id ≡ m id))

  -- The map that a file holds, and what an operation is to make of it.
  abbrev pub RefinesOp : Op → World → World → Type 0
  RefinesOp op d d' =
      (d'.target ≡ d.target)
      ⊎ ((s : StoreFile) × (load_file env d.target ≡ ok s) × Refines (specified op (view s)) d d')

  conclude-Refines :
      {R : Type 0} (m : ProfileMap) (o : Outcome R) (d : World)
      → SavesView m o
      → Refines m d (conclude env o d).1
  unfolding conclude save_state
  conclude-Refines m (leave r) d h = inl refl
  conclude-Refines m (store s r) d h =
      let e =
        ap (λ (x : World). x.target)
          (write_result-world r (write_file env.fails env.torn (encode_store s) d)) in
      elim (write_file-target env.fails env.torn (encode_store s) d) [
        | inl same ↦ inl (e ∙ same)
        | inr new ↦ inr (s, e ∙ new, h)
      ]

  on_ok-RefinesOp :
      {A B : Type 0} (op : Op) (d : World) (f : A → M B) (r : Result _ A × World)
      → r.1.target ≡ d.target
      → ((a : A) (d' : World) → r ≡ (ok a, d') → d'.target ≡ d.target → RefinesOp op d (f a d').1)
      → RefinesOp op d (on_ok f r).1
  on_ok-RefinesOp op d f (ok a, d') t k = k a d' refl t
  on_ok-RefinesOp op d f (err e, d') t k = inl t

  -- The load of a file that has not changed since.
  reload :
      (op : Op) (d d1 d2 : World) (s : StoreFile)
      → d1.target ≡ d.target
      → load_file env d1.target ≡ ok s
      → load_file env d.target ≡ ok s
  reload op d d1 d2 s t h = ground (arith, t)

  same_start :
      (m : ProfileMap) (d d1 d2 : World) → d1.target ≡ d.target → Refines m d1 d2 → Refines m d d2
  same_start m d d1 d2 t (inl e) = inl (e ∙ t)
  same_start m d d1 d2 t (inr r) = inr r

  mutate-RefinesOp :
      {R : Type 0} (op : Op) (change : StoreFile → Outcome R) (d : World)
      → ((s : StoreFile) → IsUnique id_of s.profiles → SavesView (specified op (view s)) (change s))
      → RefinesOp op d (mutate env change d).1
  unfolding mutate
  mutate-RefinesOp op change d k =
      on_ok-RefinesOp op d _ (lock_for_mutation env d) (lock_for_mutation-target env d) λ _ d1 _ t1.
        on_ok-RefinesOp op d _ (load_state env d1) (load_state-target env d1 ∙ t1) λ s d2 l t2.
          let h = reload op d d1 d2 s t1 (load_state-load_file env d1 s d2 l) in
          inr (
            s,
            h,
            same_start (specified op (view s)) d d2 (conclude env (change s) d2).1 t2 (
                conclude-Refines (specified op (view s)) (change s) d2
                  (k s (load_file-IsUnique d.target s h))),
          )

  checked_first-RefinesOp :
      {R : Type 0} (op : Op) (b : Bool) (m : M R) (d : World)
      → RefinesOp op d (m d).1
      → RefinesOp op d (checked_first env b m d).1
  unfolding checked_first
  checked_first-RefinesOp op true m d r = r
  checked_first-RefinesOp op false m d r = inl refl

  -- Whichever calls fail, an operation leaves the file as it was, or replaces it by a file that
  -- holds exactly the specified change of the map that was loaded: nobody else's profile is lost.
  pub run_op-RefinesOp : (op : Op) (d : World) → RefinesOp op d (run_op env op d)
  unfolding run_op run_select run_select_if_unset run_delete run_resolve_selected run_add
      run_add_and_select run_add_profiles run_delete_resolved run_replace_profiles
      run_delete_subscription select
  run_op-RefinesOp (select_op selector) d =
      mutate-RefinesOp (select_op selector) (select env.lower selector) d
        λ s _. select-SavesView env.lower selector s (resolve env.lower s.profiles selector)
  run_op-RefinesOp (select_if_unset_op id) d =
      mutate-RefinesOp (select_if_unset_op id) _ d λ s _. select_if_unset-SavesView id s
  run_op-RefinesOp (delete_op id) d =
      mutate-RefinesOp (delete_op id) _ d λ s _. delete-SavesView id s
  run_op-RefinesOp resolve_selected_op d =
      mutate-RefinesOp resolve_selected_op _ d λ s _. resolve_selected-SavesView s
  run_op-RefinesOp (add_op p) d =
      checked_first-RefinesOp (add_op p) (valid env p) (mutate env (add p)) d
        (mutate-RefinesOp (add_op p) _ d λ s _. add-SavesView p s)
  run_op-RefinesOp (add_and_select_op p) d =
      checked_first-RefinesOp (add_and_select_op p) (valid env p) (mutate env (add_and_select p)) d
        (mutate-RefinesOp (add_and_select_op p) _ d λ s _. add_and_select-SavesView p s)
  run_op-RefinesOp (add_profiles_op ps) d =
      mutate-RefinesOp (add_profiles_op ps) _ d λ s _. add_profiles-SavesView (valid env) ps s
  run_op-RefinesOp (delete_resolved_op selector p) d =
      mutate-RefinesOp (delete_resolved_op selector p) _ d
        λ s _. delete_resolved-SavesView env.lower selector p s
  run_op-RefinesOp (replace_op previous next) d =
      mutate-RefinesOp (replace_op previous next) _ d
        λ s _. replace_profiles-SavesView (valid env) previous next s
  run_op-RefinesOp (delete_subscription_op []) d = inl refl
  run_op-RefinesOp (delete_subscription_op (id ∷ ids)) d =
      mutate-RefinesOp (delete_subscription_op (id ∷ ids)) _ d
        λ s u. delete_subscription-SavesView (id ∷ ids) s u
