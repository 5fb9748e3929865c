-- ===== src/Subscription/Refinement.antt =====
-- The file of the subscriptions as a map, and what every operation makes of it.
use podlaz.Common.{
  ◌≡◌, ◌⊎◌, inl, inr, refl, ap, ◌∙◌, Bool, true, false, not, List, [], ◌∷◌, ◌++◌, Option, none,
  some, Str, str_eq, str_eq→≡, str_eq_refl, Result, ok, err, arith, if◌then◌else◌, find, has, keep,
  find-sort_by, find-append, find-none, find-keep_key,
}
use podlaz.StoreJson.{
  on_ok, call, write_file, write_file-Written, Written, Operation, sync_parent_directory,
}
use podlaz.Subscription.Model.{Source, source_id}
use podlaz.Subscription.Store.{
  SourceError, Env, World, M, encode_sources, add, put, update, delete, valid, load_file, load,
  save, save_changed, mutate, checked_first, write_result, write_failed, invalid_source, Op, add_op,
  update_op, delete_op, run_op,
}

abbrev pub SourceMap : Type 0
SourceMap = Str → Option Source

abbrev pub view : List Source → SourceMap
view ss id = find source_id id ss

-- What an operation is to make of the map.
abbrev pub specified : Op → SourceMap → SourceMap
specified (add_op s) m id = if str_eq s.id id then some s else m id
specified (update_op s) m id = if str_eq s.id id then some s else m id
specified (delete_op k) m id = if str_eq k id then none else m id

find-put :
    (s : Source) (id : Str) (ss : List Source)
    → find source_id id (put s ss) ≡ (
        if has source_id s.id ss
        then (if str_eq s.id id then some s else find source_id id ss)
        else find source_id id ss)
unfolding find put has
find-put s id [] = refl
find-put s id (x ∷ xs) = ground (
  arith,
  find-put s id xs,
  str_eq→≡ x.id s.id,
  str_eq→≡ x.id id,
  str_eq→≡ s.id id,
  str_eq_refl id,
)

-- The lists that an operation may save.
abbrev Gives : SourceMap → Result SourceError (List Source) → Type 0
Gives m (ok ss) = (id : Str) → view ss id ≡ m id
Gives m (err e) = Unit

if_Gives :
    (m : SourceMap) (b : Bool) (x y : Result SourceError (List Source))
    → (b ≡ true → Gives m x)
    → (b ≡ false → Gives m y)
    → Gives m (if b then x else y)
if_Gives m true x y k l = k refl
if_Gives m false x y k l = l refl

add-Gives : (s : Source) (ss : List Source) → Gives (specified (add_op s) (view ss)) (add s ss)
unfolding add find
add-Gives s ss =
    if_Gives (specified (add_op s) (view ss)) (has source_id s.id ss) _ _ (λ _. tt)
      λ h id. ground (
        arith,
        find-sort_by source_id id (ss ++ s ∷ []),
        find-append source_id id ss (s ∷ []),
        find-none source_id id ss,
        str_eq→≡ s.id id,
        h,
      )

update-Gives :
    (s : Source) (ss : List Source) → Gives (specified (update_op s) (view ss)) (update s ss)
unfolding update
update-Gives s ss =
    if_Gives (specified (update_op s) (view ss)) (has source_id s.id ss) _ _
      (λ h id. ground (arith, find-sort_by source_id id (put s ss), find-put s id ss, h)) λ _. tt

delete-Gives :
    (k : Str) (ss : List Source) → Gives (specified (delete_op k) (view ss)) (delete k ss)
unfolding delete
delete-Gives k ss =
    if_Gives (specified (delete_op k) (view ss)) (has source_id k ss) _ _
      (λ h id. ground (
        arith,
        find-sort_by source_id id (keep (λ x. not (str_eq x.id k)) ss),
        find-keep_key source_id id (λ i. not (str_eq i k)) ss,
        str_eq→≡ id k,
        str_eq→≡ k id,
        str_eq_refl k,
      ))
      λ _. tt

module _ (env : Env) where
  -- The file that is left, if the map that was loaded is to become `spec` of it.
  abbrev pub Changed : (SourceMap → SourceMap) → World → World → Type 0
  Changed spec d d' =
      (ss ss' : List Source) × (load_file env d.target ≡ ok ss)
      × (d'.target ≡ some (encode_sources ss'))
      × ((id : Str) → view ss' id ≡ spec (view ss) id)

  -- A success has changed the file; an error has not, unless only the directory was not synced.
  abbrev pub Settles :
      (SourceMap → SourceMap) → World → Result SourceError (Unit {0}) × World → Type 0
  Settles spec d (ok _, d') = Changed spec d d'
  Settles spec d (err e, d') =
      (d'.target ≡ d.target) ⊎ (e ≡ write_failed sync_parent_directory) × Changed spec d d'

  write_result-Settles :
      (spec : SourceMap → SourceMap) (d d1 : World) (ss ss' : List Source)
      (r : Result Operation (Unit {0}) × World)
      → load_file env d.target ≡ ok ss
      → ((id : Str) → view ss' id ≡ spec (view ss) id)
      → d1.target ≡ d.target
      → Written (encode_sources ss') d1 r
      → Settles spec d (write_result r)
  unfolding write_result
  write_result-Settles spec d d1 ss ss' (ok _, d') l h t w = (ss, ss', l, w, h)
  write_result-Settles spec d d1 ss ss' (err e, d') l h t (inl w) = inl (w ∙ t)
  write_result-Settles spec d d1 ss ss' (err e, d') l h t (inr (e', w)) =
      inr (ap write_failed e', (ss, ss', l, w, h))

  save_changed-Settles :
      (spec : SourceMap → SourceMap) (d d1 : World) (ss : List Source)
      (r : Result SourceError (List Source))
      → load_file env d.target ≡ ok ss
      → d1.target ≡ d.target
      → Gives (spec (view ss)) r
      → Settles spec d (save_changed env r d1)
  unfolding save_changed save
  save_changed-Settles spec d d1 ss (err e) l t g = inl t
  save_changed-Settles spec d d1 ss (ok ss') l t g =
      write_result-Settles spec d d1 ss ss' (write_file env.fails env.torn (encode_sources ss') d1)
        l g t (write_file-Written env.fails env.torn (encode_sources ss') d1)

  on_ok-Settles :
      {A : Type 0} (spec : SourceMap → SourceMap) (d : World) (f : A → M (Unit {0}))
      (r : Result SourceError A × World)
      → r.1.target ≡ d.target
      → ((a : A) (d' : World) → r ≡ (ok a, d') → d'.target ≡ d.target → Settles spec d (f a d'))
      → Settles spec d (on_ok f r)
  on_ok-Settles spec d f (ok a, d') t k = k a d' refl t
  on_ok-Settles spec d f (err e, d') t k = inl t

  load-target : (d : World) → (load env d).1.target ≡ d.target
  unfolding load call
  load-target d = ground arith

  load-load_file :
      (d : World) (ss : List Source) (d' : World)
      → load env d ≡ (ok ss, d')
      → load_file env d.target ≡ ok ss
  unfolding load call
  load-load_file d ss d' h = ground arith

  mutate-Settles :
      (spec : SourceMap → SourceMap) (change : List Source → Result SourceError (List Source))
      (d : World)
      → ((ss : List Source) → Gives (spec (view ss)) (change ss))
      → Settles spec d (mutate env change d)
  unfolding mutate
  mutate-Settles spec change d k =
      on_ok-Settles spec d (λ ss. save_changed env (change ss)) (load env d) (load-target d)
        λ ss d' l t.
          save_changed-Settles spec d d' ss (change ss) (load-load_file d ss d' l) t (k ss)

  checked_first-Settles :
      (spec : SourceMap → SourceMap) (s : Source) (m : M (Unit {0})) (d : World)
      → Settles spec d (m d)
      → Settles spec d (checked_first env s m d)
  unfolding checked_first
  checked_first-Settles spec s m d h =
      elim (valid env s) as (λ b. Settles spec d (if b then m d else (err invalid_source, d))) [
        | true ↦ h
        | false ↦ inl refl
      ]

  -- Whichever calls fail, an operation that succeeds has replaced the file by one that holds exactly
  -- the specified change of the map that was loaded, and one that fails has left the file, unless
  -- only the directory was not synced behind the change.
  pub run_op-Settles : (op : Op) (d : World) → Settles (specified op) d (run_op env op d)
  unfolding run_op
  run_op-Settles (add_op s) d =
      checked_first-Settles (specified (add_op s)) s (mutate env (add s)) d
        (mutate-Settles (specified (add_op s)) (add s) d (add-Gives s))
  run_op-Settles (update_op s) d =
      checked_first-Settles (specified (update_op s)) s (mutate env (update s)) d
        (mutate-Settles (specified (update_op s)) (update s) d (update-Gives s))
  run_op-Settles (delete_op k) d =
      mutate-Settles (specified (delete_op k)) (delete k) d (delete-Gives k)
