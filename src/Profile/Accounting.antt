-- ===== src/Profile/Accounting.antt =====
-- The counts that a replacement of a subscription's profiles reports.
use podlaz.Common.{
  inl, inr, suc, ◌+◌, ◌≡◌, refl, sym, ◌∙◌, Bool, true, false, not, ◌&&◌, List, [], ◌∷◌, ◌++◌,
  Option, none, some, Str, str_eq, str_eq→≡, str_eq_refl, elem, All, Result, ok, err, arith,
  if◌then◌else◌, find, find-has, is_some, has, keep, sort_by, insert_by, IsUnique, length,
  Bool-cases,
}
use podlaz.Profile.Model.{Profile, id_of}
use podlaz.Profile.Changes.{
  StoreFile, Outcome, leave, store, clear_stale, with_profiles, count, UpdateDiff, kept,
  count_removed, count_one, count_next, diff_of, check_next, replace_checked, replace_profiles,
  drop_selection,
}
use podlaz.Profile.Integrity.Batch.{check_next-IsReplacement}

length-insert_by :
    (p : Profile) (ps : List Profile) → length (insert_by id_of p ps) ≡ suc (length ps)
unfolding insert_by
length-insert_by p [] = refl
length-insert_by p (q ∷ qs) = ground (arith, length-insert_by p qs)

length-sort_by : (ps : List Profile) → length (sort_by id_of ps) ≡ length ps
unfolding sort_by
length-sort_by [] = refl
length-sort_by (p ∷ ps) = ground (arith, length-insert_by p (sort_by id_of ps), length-sort_by ps)

length-append : (ps qs : List Profile) → length (ps ++ qs) ≡ length ps + length qs
length-append [] qs = omega arith
length-append (p ∷ ps) qs = omega (arith, length-append ps qs)

count_id :
    (id : Str) (ps : List Profile)
    → IsUnique id_of ps
    → count (λ p. str_eq p.id id) ps ≡ (if has id_of id ps then 1 else 0)
unfolding count has
count_id id [] u = refl
count_id id (p ∷ ps) (a, u) = ground (arith, count_id id ps u, str_eq→≡ p.id id)

-- A profile more on the other side.
count_more :
    (p : Profile) (ps qs : List Profile)
    → has id_of p.id ps ≡ false
    → count (λ q. has id_of q.id (p ∷ ps)) qs
      ≡ count (λ q. str_eq q.id p.id) qs + count (λ q. has id_of q.id ps) qs
unfolding count has
count_more p ps [] a = omega arith
count_more p ps (q ∷ qs) a =
    ground (arith, count_more p ps qs a, str_eq→≡ p.id q.id, str_eq→≡ q.id p.id, str_eq_refl p.id)

count_none : (qs : List Profile) → count (λ q. has id_of q.id []) qs ≡ 0
unfolding count has
count_none [] = refl
count_none (q ∷ qs) = ground (arith, count_none qs)

-- As many profiles of one list are in the other as the other way round.
count_common :
    (ps qs : List Profile)
    → IsUnique id_of ps
    → IsUnique id_of qs
    → count (λ p. has id_of p.id qs) ps ≡ count (λ q. has id_of q.id ps) qs
unfolding count
count_common [] qs u v = sym (count_none qs)
count_common (p ∷ ps) qs (a, u) v =
    ground (arith, count_common ps qs u v, count_more p ps qs a, count_id p.id qs v)

module _ (valid : Profile → Bool) (previous : List Str) where
  -- The old profiles, part by part.
  old_parts :
      (next current : List Profile)
      → length (kept valid previous current)
          + count_removed valid previous next current
          + count (λ p. elem p.id previous && has id_of p.id next) current
        ≡ length current
  unfolding kept keep count_removed count
  old_parts next [] = omega arith
  old_parts next (p ∷ ps) = ground (arith, old_parts next ps)

  in_previous :
      (id : Str) (next current : List Profile)
      → All (λ q. (has id_of q.id current && not (elem q.id previous)) ≡ false) next
      → has id_of id next ≡ true
      → has id_of id current ≡ true
      → elem id previous ≡ true
  unfolding has
  in_previous id [] current h n c = cc
  in_previous id (q ∷ next) current (a, h) n c = elim (Bool-cases (str_eq q.id id)) [
    | inl e ↦ ground (arith, str_eq→≡ q.id id)
    | inr e ↦ in_previous id next current h (ground arith) c
  ]

  -- What is on both sides was of the subscription before.
  previous_common :
      (ps next current : List Profile)
      → All (λ q. (has id_of q.id current && not (elem q.id previous)) ≡ false) next
      → ((id : Str) → has id_of id ps ≡ true → has id_of id current ≡ true)
      → count (λ p. elem p.id previous && has id_of p.id next) ps
        ≡ count (λ p. has id_of p.id next) ps
  unfolding count has
  previous_common [] next current h sub = refl
  previous_common (p ∷ ps) next current h sub =
      let rest = previous_common ps next current h (λ id e. sub id (ground arith)) in
      elim (Bool-cases (has id_of p.id next)) [
        | inl n ↦
            let e =
              in_previous p.id next current h n (sub p.id (ground (arith, str_eq_refl p.id))) in
            ground arith
        | inr n ↦ ground arith
      ]

  count_one_parts :
      (o : Option Profile) (p : Profile) (d : UpdateDiff)
      → ((count_one valid previous o p d).imported + (if is_some o then 1 else 0) ≡ suc d.imported)
        × ((count_one valid previous o p d).updated + (count_one valid previous o p d).unchanged
            ≡ d.updated + d.unchanged + (if is_some o then 1 else 0))
        × ((count_one valid previous o p d).removed ≡ d.removed)
  unfolding count_one
  count_one_parts none p d = (omega arith, omega arith, refl)
  count_one_parts (some old) p d = ground arith

  -- The counts of the new profiles, from any start.
  count_next_sum :
      (current next : List Profile) (d : UpdateDiff)
      → ((count_next valid previous current next d).imported
            + count (λ q. has id_of q.id current) next
          ≡ d.imported + length next)
        × ((count_next valid previous current next d).updated
              + (count_next valid previous current next d).unchanged
            ≡ d.updated + d.unchanged + count (λ q. has id_of q.id current) next)
        × ((count_next valid previous current next d).removed ≡ d.removed)
  unfolding count_next count_one count
  count_next_sum current [] d = (omega arith, omega arith, refl)
  count_next_sum current (p ∷ ps) d =
      let o = find id_of p.id current in
      let (a, b, c) = count_next_sum current ps (count_one valid previous o p d) in
      let (x, y, z) = count_one_parts o p d in
      (
        ground (arith, find-has id_of p.id current),
        ground (arith, find-has id_of p.id current),
        c ∙ z,
      )

  -- The report of a replacement accounts for every profile.
  abbrev pub Accounts : List Profile → StoreFile → Outcome UpdateDiff → Type 0
  Accounts next s (store s' (ok d)) =
      (d.imported + d.updated + d.unchanged ≡ length next)
      × (length s'.profiles + d.removed ≡ length s.profiles + d.imported)
  Accounts next s (store s' (err _)) = ⊥
  Accounts next s (leave (ok _)) = ⊥
  Accounts next s (leave (err _)) = Unit

  diff_of_parts :
      (next current : List Profile)
      → IsUnique id_of current
      → IsUnique id_of next
      → All (λ q. (has id_of q.id current && not (elem q.id previous)) ≡ false) next
      → ((diff_of valid previous current next).imported
            + (diff_of valid previous current next).updated
            + (diff_of valid previous current next).unchanged
          ≡ length next)
        × (length (kept valid previous current)
              + length next
              + (diff_of valid previous current next).removed
            ≡ length current + (diff_of valid previous current next).imported)
  unfolding diff_of
  diff_of_parts next current u v h =
      let (a, b, c) = count_next_sum current next (record {
        imported = 0;
        updated = 0;
        unchanged = 0;
        removed = count_removed valid previous next current;
      }) in
      let shared = previous_common current next current h (λ id e. e) in
      let both = count_common current next u v in
      let old = old_parts next current in (omega arith, omega arith)

  clear_stale-length : (s : StoreFile) → length (clear_stale s).profiles ≡ length s.profiles
  unfolding clear_stale
  clear_stale-length s = ground arith

  replace_checked-Accounts :
      (next : List Profile) (s : StoreFile) (r : Result _ Unit)
      → IsUnique id_of s.profiles
      → check_next valid previous s.profiles [] next ≡ r
      → Accounts next s (replace_checked valid previous next s r)
  unfolding replace_checked drop_selection
  replace_checked-Accounts next s (err e) u c = tt
  replace_checked-Accounts next s (ok _) u c =
      let (_, v, _, f) = check_next-IsReplacement valid previous s.profiles [] next c in
      let (a, b) = diff_of_parts next s.profiles u v f in
      let ps = kept valid previous s.profiles ++ next in
      (
        a,
        omega (
          arith,
          clear_stale-length (with_profiles s ps),
          length-sort_by ps,
          length-append (kept valid previous s.profiles) next,
        ),
      )

  -- A replacement that saves reports counts that add up: every new profile is imported, updated or
  -- unchanged, and the store grows by the imported and shrinks by the removed profiles.
  pub replace_profiles-Accounts :
      (next : List Profile) (s : StoreFile)
      → IsUnique id_of s.profiles
      → Accounts next s (replace_profiles valid previous next s)
  unfolding replace_profiles
  replace_profiles-Accounts next s u =
      replace_checked-Accounts next s (check_next valid previous s.profiles [] next) u refl
