-- ===== src/Profile/Resolution.antt =====
-- What a selector finds.
use podlaz.Common.{
  sym, ℕ, zero, suc, ap, ◌∙◌, ◌≡◌, ◌⊎◌, inl, inr, refl, true, List, [], ◌∷◌, Option, none, some,
  Str, str_eq, str_eq_refl, ok, arith, Bool-cases, has, sort_by, has-keep, has-sort_by,
  find-eq-some, cut_prefix, text, trim_space,
}
use podlaz.Profile.Model.{Profile, id_of}
use podlaz.Profile.Selector.{
  StoreError, resolve, resolve_trimmed, profile_by_id, get_elem?, row, or_error, only, named,
  display_name_key, atoi, is_positional, by_id_or_name, not_found, invalid_position,
}

only-has : (ps : List Profile) (p : Profile) → only ps ≡ ok p → has id_of p.id ps ≡ true
unfolding only has
only-has [] p h = cc
only-has (q ∷ []) p h = ground (arith, str_eq_refl q.id)
only-has (q ∷ r ∷ rs) p h = cc

get_elem?-has :
    (ps : List Profile) (i : ℕ) (p : Profile) → get_elem? ps i ≡ some p → has id_of p.id ps ≡ true
unfolding get_elem? has
get_elem?-has [] i p h = cc
get_elem?-has (q ∷ qs) zero p h = ground (arith, str_eq_refl q.id)
get_elem?-has (q ∷ qs) (suc i) p h = ground (arith, get_elem?-has qs i p)

row-has :
    (ps : List Profile) (o : Option ℕ) (p : Profile) → row ps o ≡ some p → has id_of p.id ps ≡ true
unfolding row
row-has ps none p h = cc
row-has ps (some zero) p h = cc
row-has ps (some (suc i)) p h = get_elem?-has ps i p h

or_error-eq-ok :
    (e : StoreError) (o : Option Profile) (p : Profile) → or_error e o ≡ ok p → o ≡ some p
unfolding or_error
or_error-eq-ok e none p h = cc
or_error-eq-ok e (some q) p h = cc

named-has :
    (lower : Str → Str) (name : Str) (ps : List Profile) (id : Str)
    → has id_of id (named lower name ps) ≡ true
    → has id_of id ps ≡ true
unfolding named
named-has lower name ps id h = ground (
  arith,
  has-keep id_of id (λ q. str_eq (display_name_key lower q.name) (display_name_key lower name)) ps,
)

by_id_or_name-has :
    (lower : Str → Str) (ps : List Profile) (selector : Str) (o : Option Profile) (p : Profile)
    → profile_by_id ps selector ≡ o
    → by_id_or_name lower ps selector o ≡ ok p
    → has id_of p.id ps ≡ true
unfolding by_id_or_name
by_id_or_name-has lower ps selector (some q) p f h =
    (find-eq-some id_of selector ps {x = p} (f ∙ (cc))).1
by_id_or_name-has lower ps selector none p f h =
    named-has lower selector ps p.id (only-has (named lower selector ps) p h)

resolve_trimmed-has :
    (lower : Str → Str) (ps : List Profile) (selector : Str) (o : Option Str) (p : Profile)
    → resolve_trimmed lower ps selector o ≡ ok p
    → has id_of p.id ps ≡ true
unfolding resolve_trimmed
resolve_trimmed-has lower ps selector (some id) p h =
    (find-eq-some id_of id ps {x = p} (or_error-eq-ok not_found (profile_by_id ps id) p h)).1
resolve_trimmed-has lower ps selector none p h = elim (Bool-cases (is_positional selector)) [
  | inl e ↦ ground (
    arith,
    row-has (sort_by id_of ps) (atoi selector) p
        (or_error-eq-ok invalid_position (row (sort_by id_of ps) (atoi selector)) p (ground arith)),
    has-sort_by id_of p.id ps,
  )
  | inr e ↦ by_id_or_name-has lower ps selector (profile_by_id ps selector) p refl (ground arith)
]

-- A profile that a selector finds is one of the store.
pub resolve-has :
    (lower : Str → Str) (ps : List Profile) (selector : Str) (p : Profile)
    → resolve lower ps selector ≡ ok p
    → has id_of p.id ps ≡ true
unfolding resolve
resolve-has lower ps selector p h =
    resolve_trimmed-has lower ps (trim_space selector)
      (cut_prefix (text "id:") (trim_space selector)) p (ground arith)

-- What a trimmed selector may mean: an explicit identity, a row of the sorted list, an identity, or
-- the name of one profile alone, where no identity is spelled like it.
abbrev pub Means : (Str → Str) → List Profile → Str → Profile → Type 0
Means lower ps selector p =
    (cut_prefix (text "id:") selector ≡ some p.id)
    ⊎ (is_positional selector ≡ true)
      × ((i : ℕ) × (atoi selector ≡ some (suc i)) × (get_elem? (sort_by id_of ps) i ≡ some p))
    ⊎ (p.id ≡ selector)
    ⊎ (profile_by_id ps selector ≡ none) × (named lower selector ps ≡ p ∷ [])

only-eq-ok : (ps : List Profile) (p : Profile) → only ps ≡ ok p → ps ≡ p ∷ []
unfolding only
only-eq-ok [] p h = cc
only-eq-ok (q ∷ []) p h = cc
only-eq-ok (q ∷ r ∷ rs) p h = cc

row-eq-some :
    (ps : List Profile) (o : Option ℕ) (p : Profile)
    → row ps o ≡ some p
    → (i : ℕ) × (o ≡ some (suc i)) × (get_elem? ps i ≡ some p)
unfolding row
row-eq-some ps none p h = cc
row-eq-some ps (some zero) p h = cc
row-eq-some ps (some (suc i)) p h = (i, refl, h)

by_id_or_name-Means :
    (lower : Str → Str) (ps : List Profile) (selector : Str) (o : Option Profile) (p : Profile)
    → profile_by_id ps selector ≡ o
    → by_id_or_name lower ps selector o ≡ ok p
    → Means lower ps selector p
unfolding by_id_or_name
by_id_or_name-Means lower ps selector (some q) p f h =
    inr (inr (inl (find-eq-some id_of selector ps {x = p} (f ∙ (cc))).0))
by_id_or_name-Means lower ps selector none p f h =
    inr (inr (inr (f, only-eq-ok (named lower selector ps) p h)))

resolve_trimmed-Means :
    (lower : Str → Str) (ps : List Profile) (selector : Str) (o : Option Str) (p : Profile)
    → cut_prefix (text "id:") selector ≡ o
    → resolve_trimmed lower ps selector o ≡ ok p
    → Means lower ps selector p
unfolding resolve_trimmed
resolve_trimmed-Means lower ps selector (some id) p c h =
    let (e, _) =
      find-eq-some id_of id ps {x = p} (or_error-eq-ok not_found (profile_by_id ps id) p h) in
    inl (c ∙ ap some (sym e))
resolve_trimmed-Means lower ps selector none p c h = elim (Bool-cases (is_positional selector)) [
  | inl e ↦ inr (
      inl (
        e,
        row-eq-some (sort_by id_of ps) (atoi selector) p (
            or_error-eq-ok invalid_position (row (sort_by id_of ps) (atoi selector)) p
              (ground arith)),
      ))
  | inr e ↦ by_id_or_name-Means lower ps selector (profile_by_id ps selector) p refl (ground arith)
]

-- A selector that resolves means its profile, which is one of the store: it is explicit, a row of the
-- list, an identity, or a name that only this profile has.
pub resolve-Means :
    (lower : Str → Str) (ps : List Profile) (selector : Str) (p : Profile)
    → resolve lower ps selector ≡ ok p
    → Means lower ps (trim_space selector) p × (has id_of p.id ps ≡ true)
unfolding resolve
resolve-Means lower ps selector p h = (
  resolve_trimmed-Means lower ps (trim_space selector)
      (cut_prefix (text "id:") (trim_space selector)) p refl (ground arith),
  resolve-has lower ps selector p h,
)
