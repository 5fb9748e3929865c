-- ===== src/Profile/DisplayName/Duplicates/Difference.antt =====
-- That the names which internal/profile/display_name.go, `DeduplicateDisplayNames`, makes are different.
use podlaz.Common.{
  ℕ, suc, zero, ◌+◌, ◌≤◌, ◌<◌, ◌≡◌, refl, sym, ◌∙◌, ap, Bool, true, false, not, ◌==◌, List, [], ◌∷◌,
  ◌++◌, some, Str, all, map, length, elem, arith, if◌then◌else◌, Bool-cases, inl, inr, has,
  IsUnique,
}
use podlaz.Recovery.Numbers.{int_limit}
use podlaz.Profile.Model.{Profile}
use podlaz.Profile.Selector.{display_name_key}
use podlaz.Profile.DisplayName.Suffixes.{search_suffix-ends}
use podlaz.Profile.DisplayName.Marks.{mark_of}
use podlaz.Profile.DisplayName.Duplicates.{
  Names, next_of, base_name, first_suffix, choose_name, deduplicate_from, deduplicate_display_names,
}

-- The last suffix that so many more profiles can take, after a suffix and so many used names.
unfoldable pub last_suffix : ℕ → ℕ → ℕ → ℕ
last_suffix next used zero = next
last_suffix next used (suc n) = last_suffix (next + suc used) (suc used) n

last_suffix-grows : (next used n : ℕ) → next ≤ last_suffix next used n
unfolding last_suffix
last_suffix-grows next used zero = omega arith
last_suffix-grows next used (suc n) =
    let more = last_suffix-grows (next + suc used) (suc used) n in omega arith

-- What the names are not about.
unfoldable pub unnamed : Profile → Profile
unnamed p = record p { name = [] }

module _ (lower : Str → Str)
    (keeps_mark : (s : Str) (n : ℕ)
      → n < int_limit
      → lower (s ++ mark_of n) ≡ lower s ++ mark_of n) where
  name_key : Profile → Str
  name_key p = display_name_key lower p.name

  all_new : List Str → List Profile → Bool
  all_new used ps = all (λ p. not (elem (name_key p) used)) ps

  all_new-used :
      (u : Str) (used : List Str) (ps : List Profile)
      → all_new (u ∷ used) ps ≡ true
      → (has name_key u ps ≡ false) × (all_new used ps ≡ true)
  unfolding all_new has
  all_new-used u used [] h = (refl, refl)
  all_new-used u used (p ∷ ps) h =
      let (a, b) = all_new-used u used ps (ground arith) in (ground arith, ground arith)

  AllWithin : ℕ → Names → Type 0
  AllWithin bound s = (key : Str) → next_of key s.next_suffix_by_base ≤ bound

  first_suffix-within :
      (base : Str) (s : Names) (bound : ℕ)
      → 2 ≤ bound
      → AllWithin bound s
      → first_suffix lower base s ≤ bound
  unfolding first_suffix AllWithin
  first_suffix-within base s bound two within = ground (arith, within (display_name_key lower base))

  next_of-added :
      (k : Str) (n : ℕ) (rest : List (Str × ℕ)) (bound more : ℕ)
      → n ≤ more
      → bound ≤ more
      → ((key : Str) → next_of key rest ≤ bound)
      → (key : Str) → next_of key ((k, n) ∷ rest) ≤ more
  unfolding next_of
  next_of-added k n rest bound more a b h key = ground (arith, h key)

  choose_name-chooses :
      (base : Str) (s : Names) (bound : ℕ)
      → 2 ≤ bound
      → AllWithin bound s
      → bound + suc (length s.used_final_names) < int_limit
      → (name : Str) × (s' : Names) × (choose_name lower base s ≡ some (name, s'))
        × (elem (display_name_key lower name) s.used_final_names ≡ false)
        × (s'.used_final_names ≡ display_name_key lower name ∷ s.used_final_names)
        × AllWithin (bound + suc (length s.used_final_names)) s'
  unfolding choose_name first_suffix next_of AllWithin
  choose_name-chooses base s bound two within room =
      let base_key = display_name_key lower base in
      elim (Bool-cases (elem base_key s.used_final_names)) [
        | inl e ↦
            let first = first_suffix-within base s bound two within in
            let (name, next, found, new, few) =
              search_suffix-ends lower keeps_mark base (first_suffix lower base s)
                s.used_final_names (omega arith) in
            (
              name,
              record {
                used_final_names = display_name_key lower name ∷ s.used_final_names;
                next_suffix_by_base = (base_key, next) ∷ s.next_suffix_by_base;
              },
              ground (arith, e, found),
              new,
              refl,
              next_of-added base_key next s.next_suffix_by_base bound
                  (bound + suc (length s.used_final_names)) (omega arith) (omega arith) within,
            )
        | inr e ↦ (
          base,
          record {
            used_final_names = base_key ∷ s.used_final_names;
            next_suffix_by_base =
                if next_of base_key s.next_suffix_by_base == 0
                then (base_key, 2) ∷ s.next_suffix_by_base
                else s.next_suffix_by_base;
          },
          ground (arith, e),
          e,
          refl,
          (λ key. ground (
            arith,
            within key,
            next_of-added base_key 2 s.next_suffix_by_base bound
                (bound + suc (length s.used_final_names)) (omega arith) (omega arith) within key,
          )),
        )
      ]

  deduplicate_from-next :
      (p : Profile) (ps : List Profile) (s s' : Names) (name : Str) (qs : List Profile)
      → choose_name lower (base_name lower p) s ≡ some (name, s')
      → deduplicate_from lower ps s' ≡ some qs
      → deduplicate_from lower (p ∷ ps) s ≡ some (record p { name = name } ∷ qs)
  unfolding deduplicate_from
  deduplicate_from-next p ps s s' name qs g h = rw (deduplicate_from, g, h) refl

  deduplicate_from-ends :
      (ps : List Profile) (s : Names) (bound : ℕ)
      → 2 ≤ bound
      → AllWithin bound s
      → last_suffix bound (length s.used_final_names) (length ps) < int_limit
      → (qs : List Profile) × (deduplicate_from lower ps s ≡ some qs)
        × (all_new s.used_final_names qs ≡ true)
        × IsUnique name_key qs
        × (map unnamed qs ≡ map unnamed ps)
  unfolding deduplicate_from last_suffix all_new name_key unnamed
  deduplicate_from-ends [] s bound two within room = ([], refl, refl, tt, refl)
  deduplicate_from-ends (p ∷ ps) s bound two within room =
      let used = s.used_final_names in
      let grows = last_suffix-grows (bound + suc (length used)) (suc (length used)) (length ps) in
      let (name, s', chosen, new, uses, within') =
        choose_name-chooses (base_name lower p) s bound two within (omega arith) in
      let (qs, ends, fresh, unique, same) =
        deduplicate_from-ends ps s' (bound + suc (length used)) (omega arith) within'
          (rw uses room) in
      let (other, free) =
        all_new-used (display_name_key lower name) used qs
          (sym (ap (λ u. all_new u qs) uses) ∙ fresh) in
      (
        record p { name = name } ∷ qs,
        deduplicate_from-next p ps s s' name qs chosen ends,
        ground (arith, new, free),
        (other, unique),
        ap (λ l. unnamed p ∷ l) same,
      )

  -- Deduplication ends and makes the names differ: every list of profiles, as long as its suffixes fit
  -- an int, becomes a list of the same profiles in the same order, with names whose keys are different
  -- and all else as it was. The lower case of a text keeps a number in parentheses at its end.
  pub deduplicate_display_names-IsUnique :
      (ps : List Profile)
      → last_suffix 2 0 (length ps) < int_limit
      → (qs : List Profile) × (deduplicate_display_names lower ps ≡ some qs)
        × IsUnique (λ p. display_name_key lower p.name) qs
        × (map unnamed qs ≡ map unnamed ps)
  unfolding deduplicate_display_names name_key AllWithin next_of
  deduplicate_display_names-IsUnique ps room =
      let (qs, ends, fresh, unique, same) =
        deduplicate_from-ends ps (record { used_final_names = []; next_suffix_by_base = [] }) 2
          (omega arith) (λ key. omega arith) room in
      (qs, ends, unique, same)
