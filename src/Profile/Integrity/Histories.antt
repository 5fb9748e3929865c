-- ===== src/Profile/Integrity/Histories.antt =====
-- The file of the profile store in every history of operations.
use mathlib.Core.Path.{subst}
use podlaz.Common.{
  ◌≡◌, inl, inr, refl, sym, ap, ◌∙◌, Bool, true, false, List, [], ◌∷◌, some, Str, elem, All, Result,
  ok, err, arith, IsUnique, not_seen, str_eq_refl,
}
use podlaz.StoreJson.{on_ok, call, write_file, write_file-target, Operation}
use podlaz.Profile.Model.{Profile, id_of}
use podlaz.Profile.Selector.{StoreError}
use podlaz.Profile.Changes.{
  StoreFile, Outcome, leave, store, schema_v1, is_stale, add, add_and_select,
}
use podlaz.Profile.Store.{
  Env, World, M, encode_store, valid, check_stored, load_file, load_state, lock_for_mutation,
  write_result, save_state, conclude, mutate, checked_first, run_select, run_resolve_selected,
  run_select_if_unset, run_add, run_add_and_select, run_add_profiles, run_delete,
  run_delete_resolved, run_replace_profiles, run_delete_subscription, Op, select_op,
  select_if_unset_op, delete_op, resolve_selected_op, add_op, add_and_select_op, add_profiles_op,
  delete_resolved_op, replace_op, delete_subscription_op, run_op, run_ops,
}
use podlaz.Profile.Integrity.{
  IsSoundStore, SavesSound, select-SavesSound, resolve_selected-SavesSound,
  select_if_unset-SavesSound, add-SavesSound, add_and_select-SavesSound,
}
use podlaz.Profile.Integrity.Batch.{
  add_profiles-SavesSound, delete-SavesSound, delete_resolved-SavesSound,
  delete_subscription-SavesSound, replace_profiles-SavesSound,
}

pub write_result-world :
    {R : Type 0} (r : Result StoreError R) (x : Result Operation (Unit {0}) × World)
    → (write_result r x).1 ≡ x.1
unfolding write_result
write_result-world r (ok _, d) = refl
write_result-world r (err _, d) = refl

same_ok : {E A : Type 0} {a b : A} → ◌≡◌ {A = Result E A} (ok a) (ok b) → a ≡ b
same_ok h = cc

module _ (env : Env) where
  -- The file loads, and what it loads is sound.
  abbrev pub IsSoundWorld : World → Type 0
  IsSoundWorld d = (s : StoreFile) × (load_file env d.target ≡ ok s) × IsSoundStore (valid env) s

  same_target : (d d' : World) → d'.target ≡ d.target → IsSoundWorld d → IsSoundWorld d'
  same_target d d' e (s, l, h) = (s, ap (load_file env) e ∙ l, h)

  check_stored_unseen :
      (seen : List Str) (ps : List Profile)
      → All (λ p. valid env p ≡ true) ps
      → IsUnique id_of ps
      → All (λ p. elem p.id seen ≡ false) ps
      → check_stored env seen ps ≡ ok tt
  unfolding check_stored
  check_stored_unseen seen [] v u f = refl
  check_stored_unseen seen (p ∷ ps) (a, v) (b, u) (c, f) =
      ground
        (arith, a, c, check_stored_unseen (p.id ∷ seen) ps v u (not_seen id_of p.id seen ps b f))

  none_seen : (ps : List Profile) → All (λ p. elem p.id [] ≡ false) ps
  none_seen [] = tt
  none_seen (p ∷ ps) = (refl, none_seen ps)

  encode_store-loads :
      (s : StoreFile)
      → IsSoundStore (valid env) s
      → load_file env (some (encode_store s)) ≡ ok (record s { schema_version = schema_v1 })
  unfolding load_file
  encode_store-loads s ((v, u), _) =
      ground
        (arith, str_eq_refl schema_v1, check_stored_unseen [] s.profiles v u (none_seen s.profiles))

  saved :
      (s : StoreFile) (d : World)
      → d.target ≡ some (encode_store s)
      → IsSoundStore (valid env) s
      → IsSoundWorld d
  unfolding is_stale
  saved s d e h =
      (record s { schema_version = schema_v1 }, ap (load_file env) e ∙ encode_store-loads s h, h)

  save_state-IsSoundWorld :
      {R : Type 0} (s : StoreFile) (r : Result StoreError R) (d : World)
      → IsSoundStore (valid env) s
      → IsSoundWorld d
      → IsSoundWorld (save_state env s r d).1
  unfolding save_state
  save_state-IsSoundWorld s r d h w =
      let d' = (write_file env.fails env.torn (encode_store s) d).1 in
      let e =
        ap (λ (x : World). x.target)
          (write_result-world r (write_file env.fails env.torn (encode_store s) d)) in
      elim (write_file-target env.fails env.torn (encode_store s) d) [
        | inl kept ↦ same_target d (save_state env s r d).1 (e ∙ kept) w
        | inr new ↦ saved s (save_state env s r d).1 (e ∙ new) h
      ]

  conclude-IsSoundWorld :
      {R : Type 0} (o : Outcome R) (d : World)
      → SavesSound (valid env) o
      → IsSoundWorld d
      → IsSoundWorld (conclude env o d).1
  unfolding conclude
  conclude-IsSoundWorld (leave r) d h w = w
  conclude-IsSoundWorld (store s r) d h w = save_state-IsSoundWorld s r d h w

  call-target : {E : Type 0} (e : E) (d : World) → (call env.fails e d).1.target ≡ d.target
  unfolding call
  call-target e d = ground arith

  pub lock_for_mutation-target : (d : World) → (lock_for_mutation env d).1.target ≡ d.target
  unfolding lock_for_mutation call
  lock_for_mutation-target d = ground arith

  -- Behind a step that leaves the file, what follows it may rely on its result.
  follow :
      {A B : Type 0} (f : A → M B) (r : Result StoreError A × World)
      → IsSoundWorld r.1
      → ((a : A) (d : World) → r ≡ (ok a, d) → IsSoundWorld d → IsSoundWorld (f a d).1)
      → IsSoundWorld (on_ok f r).1
  follow f (ok a, d) w k = k a d refl w
  follow f (err e, d) w k = w

  pub load_state-target : (d : World) → (load_state env d).1.target ≡ d.target
  unfolding load_state call
  load_state-target d = ground arith

  pub load_state-load_file :
      (d : World) (s : StoreFile) (d' : World)
      → load_state env d ≡ (ok s, d')
      → load_file env d.target ≡ ok s
  unfolding load_state call
  load_state-load_file d s d' h = ground arith

  loaded :
      (d : World) (s : StoreFile)
      → IsSoundWorld d
      → load_file env d.target ≡ ok s
      → IsSoundStore (valid env) s
  loaded d s (s', l, h) e = subst (IsSoundStore (valid env)) (same_ok (sym l ∙ e)) h

  mutate-IsSoundWorld :
      {R : Type 0} (change : StoreFile → Outcome R) (d : World)
      → ((s : StoreFile) → IsSoundStore (valid env) s → SavesSound (valid env) (change s))
      → IsSoundWorld d
      → IsSoundWorld (mutate env change d).1
  unfolding mutate
  mutate-IsSoundWorld change d k w =
      follow _ (lock_for_mutation env d)
        (same_target d (lock_for_mutation env d).1 (lock_for_mutation-target d) w)
        λ _ d1 _ w1.
          follow _ (load_state env d1)
            (same_target d1 (load_state env d1).1 (load_state-target d1) w1)
            λ s d2 l w2.
              conclude-IsSoundWorld (change s) d2
                (k s (loaded d1 s w1 (load_state-load_file d1 s d2 l))) w2

  checked_first-IsSoundWorld :
      {R : Type 0} (b : Bool) (m : M R) (d : World)
      → (b ≡ true → IsSoundWorld (m d).1)
      → IsSoundWorld d
      → IsSoundWorld (checked_first env b m d).1
  unfolding checked_first
  checked_first-IsSoundWorld true m d k w = k refl
  checked_first-IsSoundWorld false m d k w = w

  run_op-IsSoundWorld : (op : Op) (d : World) → IsSoundWorld d → IsSoundWorld (run_op env op d)
  unfolding run_op run_select run_select_if_unset run_delete run_resolve_selected run_add
      run_add_and_select run_add_profiles run_delete_resolved run_replace_profiles
      run_delete_subscription
  run_op-IsSoundWorld (select_op selector) d w =
      mutate-IsSoundWorld _ d (select-SavesSound (valid env) env.lower selector) w
  run_op-IsSoundWorld (select_if_unset_op id) d w =
      mutate-IsSoundWorld _ d (select_if_unset-SavesSound (valid env) id) w
  run_op-IsSoundWorld (delete_op id) d w =
      mutate-IsSoundWorld _ d (delete-SavesSound (valid env) id) w
  run_op-IsSoundWorld resolve_selected_op d w =
      mutate-IsSoundWorld _ d (resolve_selected-SavesSound (valid env)) w
  run_op-IsSoundWorld (add_op p) d w =
      checked_first-IsSoundWorld (valid env p) (mutate env (add p)) d
        (λ v. mutate-IsSoundWorld _ d (λ s. add-SavesSound (valid env) p s v) w) w
  run_op-IsSoundWorld (add_and_select_op p) d w =
      checked_first-IsSoundWorld (valid env p) (mutate env (add_and_select p)) d
        (λ v. mutate-IsSoundWorld _ d (λ s. add_and_select-SavesSound (valid env) p s v) w) w
  run_op-IsSoundWorld (add_profiles_op ps) d w =
      mutate-IsSoundWorld _ d (add_profiles-SavesSound (valid env) ps) w
  run_op-IsSoundWorld (delete_resolved_op selector p) d w =
      mutate-IsSoundWorld _ d (delete_resolved-SavesSound (valid env) env.lower selector p) w
  run_op-IsSoundWorld (replace_op previous next) d w =
      mutate-IsSoundWorld _ d (replace_profiles-SavesSound (valid env) previous next) w
  run_op-IsSoundWorld (delete_subscription_op []) d w = w
  run_op-IsSoundWorld (delete_subscription_op (id ∷ ids)) d w =
      mutate-IsSoundWorld _ d (delete_subscription-SavesSound (valid env) (id ∷ ids)) w

  -- A file that loads a sound store does so behind every sequence of operations, whichever calls
  -- fail: its profiles are valid and have different identities, and its selection is one of them.
  pub run_ops-IsSoundWorld :
      (ops : List Op) (d : World) → IsSoundWorld d → IsSoundWorld (run_ops env ops d)
  unfolding run_ops
  run_ops-IsSoundWorld [] d w = w
  run_ops-IsSoundWorld (op ∷ ops) d w =
      run_ops-IsSoundWorld ops (run_op env op d) (run_op-IsSoundWorld op d w)
