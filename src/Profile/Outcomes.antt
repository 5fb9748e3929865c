-- ===== src/Profile/Outcomes.antt =====
-- What an operation of the profile store that succeeds has made of the file.
use mathlib.Core.Path.{subst}
use podlaz.Common.{
  ◌⊎◌, inl, inr, ◌==◌, keep, not, is_empty, if◌then◌else◌, ◌≡◌, refl, sym, ◌∙◌, ap, Bool, true,
  false, List, [], ◌∷◌, ◌++◌, map, Option, some, Str, Result, ok, err, arith, All, has, has-append,
  has-sort_by, str_eq_refl, sort_by,
}
use podlaz.StoreJson.{on_ok_ends, write_file, write_file-Written, Written, Operation}
use podlaz.Profile.Model.{Profile, id_of}
use podlaz.Profile.Selector.{write_failed, StoreError, not_found}
use podlaz.Profile.Changes.{
  is_owned, count, delete_subscription, with_profiles, StoreFile, Outcome, leave, store, UpdateDiff,
  replace_profiles, replace_checked, check_next, kept, clear_stale, is_stale, drop_selection,
  select_if_unset, save_if,
}
use podlaz.Profile.Store.{
  run_delete_subscription, Env, World, ProfileFile, encode_store, valid, load_file, load_state,
  lock_for_mutation, conclude, save_state, write_result, mutate, run_replace_profiles,
  run_select_if_unset,
}
use podlaz.Profile.Integrity.Histories.{
  lock_for_mutation-target, load_state-target, load_state-load_file,
}

-- What is left by an operation that returns `a`.
abbrev pub Left : {R : Type 0} → Outcome R → R → World → World → Type 0
Left (leave r) a d d' = (r ≡ ok a) × (d'.target ≡ d.target)
Left (store s r) a d d' = (r ≡ ok a) × (d'.target ≡ some (encode_store s))

-- A file with these profiles in it.
abbrev pub Holds : List Str → Option ProfileFile → Type 0
Holds ids o =
    (s : StoreFile) × (o ≡ some (encode_store s)) × All (λ id. has id_of id s.profiles ≡ true) ids

module _ (env : Env) where
  -- What a success, if it is one, has done to the loaded state.
  abbrev pub Succeeds :
      {R : Type 0} → (StoreFile → Outcome R) → World → Result StoreError R × World → Type 0
  Succeeds change d (ok a, d') =
      (s : StoreFile) × (load_file env d.target ≡ ok s) × Left (change s) a d d'
  Succeeds change d (err _, d') = Unit

  Ends : {R : Type 0} → Outcome R → World → Result StoreError R × World → Type 0
  Ends o d (ok a, d') = Left o a d d'
  Ends o d (err _, d') = Unit

  Written-Ends :
      {R : Type 0} (s : StoreFile) (r : Result StoreError R) (d d1 : World)
      (x : Result Operation (Unit {0}) × World)
      → Written (encode_store s) d1 x
      → Ends (store s r) d (write_result r x)
  unfolding write_result Ends
  Written-Ends s (ok a) d d1 (ok _, d') w = (refl, w)
  Written-Ends s (err e) d d1 (ok _, d') w = tt
  Written-Ends s r d d1 (err _, d') w = tt

  conclude-Ends :
      {R : Type 0} (o : Outcome R) (d d1 : World)
      → d1.target ≡ d.target
      → Ends o d (conclude env o d1)
  unfolding conclude save_state Ends
  conclude-Ends (leave (ok a)) d d1 t = (refl, t)
  conclude-Ends (leave (err e)) d d1 t = tt
  conclude-Ends (store s r) d d1 t =
      Written-Ends s r d d1 (write_file env.fails env.torn (encode_store s) d1)
        (write_file-Written env.fails env.torn (encode_store s) d1)

  ended :
      {R : Type 0} (change : StoreFile → Outcome R) (d : World) (s : StoreFile)
      (x : Result StoreError R × World)
      → load_file env d.target ≡ ok s
      → Ends (change s) d x
      → Succeeds change d x
  unfolding Ends
  ended change d s (ok a, d') l e = (s, l, e)
  ended change d s (err _, d') l e = tt

  mutate-Succeeds :
      {R : Type 0} (change : StoreFile → Outcome R) (d : World)
      → Succeeds change d (mutate env change d)
  unfolding mutate
  mutate-Succeeds change d =
      on_ok_ends (Succeeds change d) _ (lock_for_mutation env d) (λ _ _ _. tt)
        λ _ d1 r1.
          on_ok_ends (Succeeds change d) _ (load_state env d1) (λ _ _ _. tt)
            λ s d2 r2.
              let t1 =
                sym (ap (λ (x : _ × World). x.1.target) r1) ∙ lock_for_mutation-target env d in
              let t2 = sym (ap (λ (x : _ × World). x.1.target) r2) ∙ load_state-target env d1 in
              ended change d s (conclude env (change s) d2)
                (ap (load_file env) (sym t1) ∙ load_state-load_file env d1 s d2 r2)
                (conclude-Ends (change s) d d2 (t2 ∙ t1))

-- Whoever is in the first list is in the second.
has_each :
    (ps qs : List Profile)
    → ((id : Str) → has id_of id ps ≡ true → has id_of id qs ≡ true)
    → All (λ id. has id_of id qs ≡ true) (map id_of ps)
unfolding has
has_each [] qs k = tt
has_each (p ∷ ps) qs k =
    (k p.id (ground (arith, str_eq_refl p.id)), has_each ps qs λ id h. k id (ground arith))

has_moved :
    (s s' : StoreFile) (ids : List Str)
    → s'.profiles ≡ s.profiles
    → All (λ id. has id_of id s.profiles ≡ true) ids
    → All (λ id. has id_of id s'.profiles ≡ true) ids
has_moved s s' ids e h = subst (λ ps. All (λ id. has id_of id ps ≡ true) ids) (sym e) h

clear_stale-profiles : (s : StoreFile) → (clear_stale s).profiles ≡ s.profiles
unfolding clear_stale
clear_stale-profiles s = ground arith

replace_checked-Holds :
    (is_valid : Profile → Bool) (previous : List Str) (next : List Profile) (s : StoreFile)
    (c : Result StoreError (Unit {0})) (diff : UpdateDiff) (d d' : World)
    → Left (replace_checked is_valid previous next s c) diff d d'
    → Holds (map id_of next) d'.target
unfolding replace_checked drop_selection
replace_checked-Holds is_valid previous next s (err e) diff d d' (h, _) = cc
replace_checked-Holds is_valid previous next s (ok _) diff d d' (_, t) =
    let all = kept is_valid previous s.profiles ++ next in
    let sorted = record s { profiles = sort_by id_of all } in
    (
      clear_stale sorted,
      t,
      has_moved sorted (clear_stale sorted) (map id_of next) (clear_stale-profiles sorted) (
          has_each next (sort_by id_of all) λ id h. ground (
            arith,
            has-sort_by id_of id all,
            has-append id_of id (kept is_valid previous s.profiles) next,
          )),
    )

encode_store-profiles :
    (env : Env) (s s' : StoreFile)
    → load_file env (some (encode_store s)) ≡ ok s'
    → s'.profiles ≡ s.profiles
unfolding load_file
encode_store-profiles env s s' h = ground arith

if_Left :
    {R : Type 0} (P : Type 0) (c : Bool) (x y : Outcome R) (b : R) (d d' : World)
    → (Left x b d d' → P)
    → (Left y b d d' → P)
    → Left (if c then x else y) b d d'
    → P
if_Left P true x y b d d' k l = k
if_Left P false x y b d d' k l = l

module _ (env : Env) (id : Str) (ids : List Str) (s : StoreFile) (b : Bool) (d d' : World)
    (loaded : load_file env d.target ≡ ok s) (held : Holds ids d.target) where
  held_by :
      (s' : StoreFile)
      → s'.profiles ≡ s.profiles
      → d'.target ≡ some (encode_store s')
      → Holds ids d'.target
  held_by s' e t =
      let (s0, t0, h) = held in
      (
        s',
        t,
        has_moved s0 s' ids
            (e ∙ encode_store-profiles env s0 s (ap (load_file env) (sym t0) ∙ loaded)) h,
      )

  stays : d'.target ≡ d.target → Holds ids d'.target
  stays e = let (s0, t0, h) = held in (s0, e ∙ t0, h)

  select_if_unset-Holds : Left (select_if_unset id s) b d d' → Holds ids d'.target
  unfolding select_if_unset save_if
  select_if_unset-Holds =
      let s' = clear_stale s in
      if_Left (Holds ids d'.target) (not (is_empty s'.selected_profile_id)) _ _ b d d'
        (if_Left (Holds ids d'.target) (is_stale s) (store s' (ok false)) (leave (ok false)) b d d'
          (λ x. held_by s' (clear_stale-profiles s) x.1) λ x. stays x.1)
        (if_Left (Holds ids d'.target) (not (has id_of id s'.profiles)) (leave (err not_found)) _ b
          d d' (λ x. stays x.1)
          λ x. held_by (record s' { selected_profile_id = id }) (clear_stale-profiles s) x.1)

module _ (env : Env) where
  pub run_replace_profiles-Holds :
      (previous : List Str) (next : List Profile) (diff : UpdateDiff) (d d' : World)
      → run_replace_profiles env previous next d ≡ (ok diff, d')
      → Holds (map id_of next) d'.target
  unfolding run_replace_profiles replace_profiles
  run_replace_profiles-Holds previous next diff d d' e =
      let change = replace_profiles (valid env) previous next in
      let (s, _, x) = subst (Succeeds env change d) e (mutate-Succeeds env change d) in
      replace_checked-Holds (valid env) previous next s
        (check_next (valid env) previous s.profiles [] next) diff d d' x

  pub run_select_if_unset-Holds :
      (id : Str) (ids : List Str) (b : Bool) (d d' : World)
      → Holds ids d.target
      → run_select_if_unset env id d ≡ (ok b, d')
      → Holds ids d'.target
  unfolding run_select_if_unset
  run_select_if_unset-Holds id ids b d d' h e =
      let change = select_if_unset id in
      let (s, l, x) = subst (Succeeds env change d) e (mutate-Succeeds env change d) in
      select_if_unset-Holds env id ids s b d d' l h x

-- An outcome that stores a state only with a success.
abbrev StoresOk : {R : Type 0} → Outcome R → Type 0
StoresOk {R} (store s r) = (a : R) × (r ≡ ok a)
StoresOk (leave r) = Unit

-- An error of such an operation has left the file, unless it is that of the write.
abbrev Fails : {R : Type 0} → World → Result StoreError R × World → Type 0
Fails d (ok _, d') = Unit
Fails d (err e, d') = (d'.target ≡ d.target) ⊎ (e ≡ write_failed)

module _ (env : Env) where
  write_result-Fails :
      {R : Type 0} (d : World) (a : R) (x : Result Operation (Unit {0}) × World)
      → Fails d (write_result (ok a) x)
  unfolding write_result
  write_result-Fails d a (ok _, d') = tt
  write_result-Fails d a (err _, d') = inr refl

  conclude-Fails :
      {R : Type 0} (o : Outcome R) (d d1 : World)
      → StoresOk o
      → d1.target ≡ d.target
      → Fails d (conclude env o d1)
  unfolding conclude save_state
  conclude-Fails (leave (ok a)) d d1 h t = tt
  conclude-Fails (leave (err e)) d d1 h t = inl t
  conclude-Fails (store s (ok a)) d d1 h t =
      write_result-Fails d a (write_file env.fails env.torn (encode_store s) d1)
  conclude-Fails (store s (err e)) d d1 (a, h) t = cc

  mutate-Fails :
      {R : Type 0} (change : StoreFile → Outcome R) (d : World)
      → ((s : StoreFile) → StoresOk (change s))
      → Fails d (mutate env change d)
  unfolding mutate
  mutate-Fails change d k =
      on_ok_ends (Fails d) _ (lock_for_mutation env d)
        (λ _ _ r. inl (sym (ap (λ (x : _ × World). x.1.target) r) ∙ lock_for_mutation-target env d))
        λ _ d1 r1.
          let t1 = sym (ap (λ (x : _ × World). x.1.target) r1) ∙ lock_for_mutation-target env d in
          on_ok_ends (Fails d) _ (load_state env d1)
            (λ _ _ r.
              inl (sym (ap (λ (x : _ × World). x.1.target) r) ∙ (load_state-target env d1 ∙ t1)))
            λ s d2 r2.
              conclude-Fails (change s) d d2 (k s)
                (sym (ap (λ (x : _ × World). x.1.target) r2) ∙ (load_state-target env d1 ∙ t1))

  delete_subscription-StoresOk :
      (ids : List Str) (s : StoreFile) → StoresOk (delete_subscription ids s)
  unfolding delete_subscription
  delete_subscription-StoresOk ids s =
      elim (count (is_owned ids) s.profiles == 0)
        as (λ b. StoresOk (
          if b
          then leave (ok 0)
          else store (clear_stale (with_profiles s (keep (λ p. not (is_owned ids p)) s.profiles)))
              (ok (count (is_owned ids) s.profiles)))) [
                | true ↦ tt
                | false ↦ (count (is_owned ids) s.profiles, refl)
              ]

  pub run_delete_subscription-Fails :
      (ids : List Str) (e : StoreError) (d d' : World)
      → run_delete_subscription env ids d ≡ (err e, d')
      → (d'.target ≡ d.target) ⊎ (e ≡ write_failed)
  unfolding run_delete_subscription
  run_delete_subscription-Fails [] e d d' h = cc
  run_delete_subscription-Fails (id ∷ ids) e d d' h =
      subst (Fails d) h
        (mutate-Fails (delete_subscription (id ∷ ids)) d (delete_subscription-StoresOk (id ∷ ids)))
