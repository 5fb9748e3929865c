-- ===== src/Common/Keyed.antt =====
-- Lists of records that have a text for a key: a Go map by that key is its list of entries.
use mathlib.Core.Path.{◌≡◌, refl}
use mathlib.Core.Logic.{inl, inr}
use mathlib.Core.Bool.{Bool, true, false, ◌||◌}
use mathlib.Core.Option.{Option, none, some}
use mathlib.Core.List.{List, [], ◌∷◌, ◌++◌}
use native.Mathlib.Omega.{arith}
use podlaz.Common.Tests.{if◌then◌else◌, is_some, Bool-cases}
use podlaz.Common.Lists.{All, any}
use podlaz.Common.Text.{Str, str_eq, str_lt, str_eq→≡, str_eq_refl, str_lt_irrefl}

-- The test of a set of texts.
abbrev pub elem : Str → List Str → Bool
elem s names = any (str_eq s) names

unfoldable pub keep {ℓ} : {A : Type ℓ} → (A → Bool) → List A → List A
keep p [] = []
keep p (x ∷ xs) = let rest = keep p xs in if p x then x ∷ rest else rest

abbrev pub keep_found {ℓ} : {A : Type ℓ} → (A → Bool) → Option A → Option A
keep_found p none = none
keep_found p (some x) = if p x then some x else none

pub keep-All :
    {A : Type 0} (P : A → Type 0) (p : A → Bool) (xs : List A) → All P xs → All P (keep p xs)
unfolding keep
keep-All P p [] h = tt
keep-All P p (x ∷ xs) (a, h) = elim (p x) as (λ b. All P (if b then x ∷ keep p xs else keep p xs)) [
  | true ↦ (a, keep-All P p xs h)
  | false ↦ keep-All P p xs h
]

pub All-append :
    {A : Type 0} (P : A → Type 0) (xs ys : List A) → All P xs → All P ys → All P (xs ++ ys)
All-append P [] ys g h = h
All-append P (x ∷ xs) ys (a, g) h = (a, All-append P xs ys g h)

module _ {A : Type 0} (key : A → Str) where
  unfoldable pub find : Str → List A → Option A
  find id [] = none
  find id (x ∷ xs) = let rest = find id xs in if str_eq (key x) id then some x else rest

  unfoldable pub has : Str → List A → Bool
  has id [] = false
  has id (x ∷ xs) = str_eq (key x) id || has id xs

  abbrev pub IsUnique : List A → Type 0
  IsUnique [] = Unit
  IsUnique (x ∷ xs) = (has (key x) xs ≡ false) × IsUnique xs

  -- Sorting by the key, which `sort.Slice` may do in another order only among equal keys.
  unfoldable pub insert_by : A → List A → List A
  insert_by x [] = x ∷ []
  insert_by x (y ∷ ys) =
      let rest = insert_by x ys in if str_lt (key y) (key x) then y ∷ rest else x ∷ y ∷ ys

  unfoldable pub sort_by : List A → List A
  unfolding insert_by
  sort_by [] = []
  sort_by (x ∷ xs) = insert_by x (sort_by xs)

  pub find-has : (id : Str) (xs : List A) → is_some (find id xs) ≡ has id xs
  unfolding find has
  find-has id [] = refl
  find-has id (x ∷ xs) = ground (arith, find-has id xs)

  pub has-append : (id : Str) (xs ys : List A) → has id (xs ++ ys) ≡ (has id xs || has id ys)
  unfolding has
  has-append id [] ys = refl
  has-append id (x ∷ xs) ys = ground (arith, has-append id xs ys)

  pub has-keep :
      (id : Str) (p : A → Bool) (xs : List A) → has id xs ≡ false → has id (keep p xs) ≡ false
  unfolding has keep
  has-keep id p [] h = refl
  has-keep id p (x ∷ xs) h = ground (arith, has-keep id p xs)

  has-insert_by :
      (id : Str) (x : A) (xs : List A) → has id (insert_by x xs) ≡ (str_eq (key x) id || has id xs)
  unfolding has insert_by
  has-insert_by id x [] = refl
  has-insert_by id x (y ∷ ys) = ground (arith, has-insert_by id x ys)

  pub has-sort_by : (id : Str) (xs : List A) → has id (sort_by xs) ≡ has id xs
  unfolding has sort_by
  has-sort_by id [] = refl
  has-sort_by id (x ∷ xs) = ground (arith, has-insert_by id x (sort_by xs), has-sort_by id xs)

  find-insert_by :
      (id : Str) (x : A) (xs : List A)
      → find id (insert_by x xs) ≡ (if str_eq (key x) id then some x else find id xs)
  unfolding find insert_by
  find-insert_by id x [] = refl
  find-insert_by id x (y ∷ ys) = ground (
    arith,
    find-insert_by id x ys,
    str_eq→≡ (key x) id,
    str_eq→≡ (key y) id,
    str_lt_irrefl (key x),
  )

  pub find-sort_by : (id : Str) (xs : List A) → find id (sort_by xs) ≡ find id xs
  unfolding find sort_by
  find-sort_by id [] = refl
  find-sort_by id (x ∷ xs) = ground (arith, find-insert_by id x (sort_by xs), find-sort_by id xs)

  pub find-append :
      (id : Str) (xs ys : List A)
      → find id (xs ++ ys) ≡ (if has id xs then find id xs else find id ys)
  unfolding find has
  find-append id [] ys = refl
  find-append id (x ∷ xs) ys = ground (arith, find-append id xs ys)

  pub find-none : (id : Str) (xs : List A) → has id xs ≡ false → find id xs ≡ none
  unfolding find has
  find-none id [] h = refl
  find-none id (x ∷ xs) h = ground (arith, find-none id xs)

  pub IsUnique-keep : (p : A → Bool) (xs : List A) → IsUnique xs → IsUnique (keep p xs)
  unfolding keep
  IsUnique-keep p [] h = tt
  IsUnique-keep p (x ∷ xs) (a, h) =
      elim (p x) as (λ b. IsUnique (if b then x ∷ keep p xs else keep p xs)) [
        | true ↦ (has-keep (key x) p xs a, IsUnique-keep p xs h)
        | false ↦ IsUnique-keep p xs h
      ]

  absent :
      (x : A) (xs ys : List A)
      → All (λ y. has (key y) (x ∷ xs) ≡ false) ys
      → (has (key x) ys ≡ false) × All (λ y. has (key y) xs ≡ false) ys
  unfolding has
  absent x xs [] h = (refl, tt)
  absent x xs (y ∷ ys) (a, h) =
      let (b, rest) = absent x xs ys h in
      (ground (arith, str_eq→≡ (key y) (key x), str_eq_refl (key x)), (ground arith, rest))

  pub IsUnique-append :
      (xs ys : List A)
      → IsUnique xs
      → IsUnique ys
      → All (λ y. has (key y) xs ≡ false) ys
      → IsUnique (xs ++ ys)
  IsUnique-append [] ys g h d = h
  IsUnique-append (x ∷ xs) ys (a, g) h d =
      let (b, rest) = absent x xs ys d in
      (ground (arith, has-append (key x) xs ys), IsUnique-append xs ys g h rest)

  IsUnique-insert_by :
      (x : A) (xs : List A) → has (key x) xs ≡ false → IsUnique xs → IsUnique (insert_by x xs)
  unfolding insert_by has
  IsUnique-insert_by x [] n h = (refl, tt)
  IsUnique-insert_by x (y ∷ ys) n (a, h) =
      elim (str_lt (key y) (key x))
        as (λ b. IsUnique (if b then y ∷ insert_by x ys else x ∷ y ∷ ys)) [
          | true ↦ (
            ground
                (arith, has-insert_by (key y) x ys, str_eq→≡ (key x) (key y), str_eq_refl (key x)),
            IsUnique-insert_by x ys (ground arith) h,
          )
          | false ↦ (n, (a, h))
        ]

  pub IsUnique-sort_by : (xs : List A) → IsUnique xs → IsUnique (sort_by xs)
  unfolding sort_by
  IsUnique-sort_by [] h = tt
  IsUnique-sort_by (x ∷ xs) (a, h) =
      IsUnique-insert_by x (sort_by xs) (ground (arith, has-sort_by (key x) xs))
        (IsUnique-sort_by xs h)

  All-insert_by : (P : A → Type 0) (x : A) (xs : List A) → P x → All P xs → All P (insert_by x xs)
  unfolding insert_by
  All-insert_by P x [] a h = (a, tt)
  All-insert_by P x (y ∷ ys) a (b, h) =
      elim (str_lt (key y) (key x)) as (λ c. All P (if c then y ∷ insert_by x ys else x ∷ y ∷ ys)) [
        | true ↦ (b, All-insert_by P x ys a h)
        | false ↦ (a, (b, h))
      ]

  pub All-sort_by : (P : A → Type 0) (xs : List A) → All P xs → All P (sort_by xs)
  unfolding sort_by
  All-sort_by P [] h = tt
  All-sort_by P (x ∷ xs) (a, h) = All-insert_by P x (sort_by xs) a (All-sort_by P xs h)

  pub find-eq-some :
      (id : Str) (xs : List A) {x : A}
      → find id xs ≡ some x
      → (key x ≡ id) × (has (key x) xs ≡ true)
  unfolding find has
  find-eq-some id [] h = cc
  find-eq-some id (y ∷ ys) {x} h = elim (Bool-cases (str_eq (key y) id)) [
    | inl e ↦ (ground (arith, str_eq→≡ (key y) id), ground (arith, str_eq_refl (key y)))
    | inr e ↦ let (a, b) = find-eq-some id ys {x = x} (ground arith) in (a, ground arith)
  ]

  -- What a loop over new entries with the set of the keys seen so far has shown.
  pub unseen :
      (k : Str) (seen : List Str) (xs : List A)
      → All (λ x. elem (key x) (k ∷ seen) ≡ false) xs
      → (has k xs ≡ false) × All (λ x. elem (key x) seen ≡ false) xs
  unfolding has
  unseen k seen [] h = (refl, tt)
  unseen k seen (x ∷ xs) (a, h) =
      let (b, rest) = unseen k seen xs h in (ground arith, (ground arith, rest))

  pub not_seen :
      (k : Str) (seen : List Str) (xs : List A)
      → has k xs ≡ false
      → All (λ x. elem (key x) seen ≡ false) xs
      → All (λ x. elem (key x) (k ∷ seen) ≡ false) xs
  unfolding has
  not_seen k seen [] a h = tt
  not_seen k seen (x ∷ xs) a (b, h) = (ground arith, not_seen k seen xs (ground arith) h)

  -- A filter by the key.
  pub find-keep_key :
      (id : Str) (p : Str → Bool) (xs : List A)
      → find id (keep (λ x. p (key x)) xs) ≡ (if p id then find id xs else none)
  unfolding find keep
  find-keep_key id p [] = ground arith
  find-keep_key id p (x ∷ xs) = ground (arith, find-keep_key id p xs, str_eq→≡ (key x) id)

  -- Another filter, on different keys.
  pub find-keep :
      (id : Str) (p : A → Bool) (xs : List A)
      → IsUnique xs
      → find id (keep p xs) ≡ keep_found p (find id xs)
  unfolding find keep
  find-keep id p [] h = refl
  find-keep id p (x ∷ xs) (a, h) = elim (Bool-cases (str_eq (key x) id)) [
    | inl e ↦ ground (arith, find-keep id p xs h, find-none id xs, str_eq→≡ (key x) id)
    | inr e ↦ ground (arith, find-keep id p xs h)
  ]
