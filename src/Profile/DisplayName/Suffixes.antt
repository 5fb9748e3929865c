-- ===== src/Profile/DisplayName/Suffixes.antt =====
-- The search for a free suffix of a name that is taken (internal/profile/display_name.go, the loop in
-- `DeduplicateDisplayNames`), and its end: there are more suffixes than names that are taken.
use podlaz.Common.{
  ℕ, suc, zero, ◌+◌, ◌-◌, ◌≤◌, ◌<◌, ◌≡◌, refl, sym, ◌∙◌, ap, Bool, true, false, ◌&&◌, List, [], ◌∷◌,
  ◌++◌, Option, none, some, Str, text, length, elem, str_eq, str_eq→≡, arith, if◌then◌else◌,
  Bool-cases, Option-cases, inl, inr,
}
use podlaz.Profile.Selector.{display_name_key}
use podlaz.Recovery.Text.{itoa}
use podlaz.Recovery.Numbers.{int_limit}
use podlaz.Profile.DisplayName.Marks.{mark_of, marked-injective, trim_space-marked}
use podlaz.Profile.DisplayName.{max_display_name_runes, truncate_runes}

unfoldable pub suffix : ℕ → Str
suffix n = text " (" ++ (itoa n ++ text ")")

unfoldable pub suffixed : Str → ℕ → Str
unfolding suffix
suffixed base n = truncate_runes base (max_display_name_runes - length (suffix n)) ++ suffix n

module _ (lower : Str → Str) where
  -- The loop, for so many turns: the first suffixed name whose key is not taken, and the next suffix.
  unfoldable pub search_suffix : ℕ → Str → ℕ → List Str → Option (Str × ℕ)
  unfolding suffixed
  search_suffix zero base next taken = none
  search_suffix (suc turns) base next taken =
      let rest = search_suffix turns base (suc next) taken in
      if elem (display_name_key lower (suffixed base next)) taken
      then rest
      else some (suffixed base next, suc next)

drop_first : Str → List Str → List Str
drop_first x [] = []
drop_first x (y ∷ ys) = let rest = drop_first x ys in if str_eq x y then ys else y ∷ rest

length-drop_first :
    (x : Str) (ys : List Str) → elem x ys ≡ true → suc (length (drop_first x ys)) ≡ length ys
unfolding drop_first
length-drop_first x [] h = cc
length-drop_first x (y ∷ ys) h = ground (arith, length-drop_first x ys)

elem-drop_first :
    (x z : Str) (ys : List Str)
    → str_eq z x ≡ false
    → elem z ys ≡ true
    → elem z (drop_first x ys) ≡ true
unfolding drop_first
elem-drop_first x z [] n h = cc
elem-drop_first x z (y ∷ ys) n h =
    ground (arith, elem-drop_first x z ys, str_eq→≡ x y, str_eq→≡ z y)

module _ (k : ℕ → Str) where
  all_taken : ℕ → ℕ → List Str → Bool
  all_taken zero n taken = true
  all_taken (suc f) n taken = elem (k n) taken && all_taken f (suc n) taken

  all_taken-drop_first :
      (x : Str) (f n : ℕ) (taken : List Str)
      → ((m : ℕ) → n ≤ m → m < n + f → str_eq (k m) x ≡ false)
      → all_taken f n taken ≡ true
      → all_taken f n (drop_first x taken) ≡ true
  unfolding all_taken
  all_taken-drop_first x zero n taken d h = refl
  all_taken-drop_first x (suc f) n taken d h = ground (
    arith,
    elem-drop_first x (k n) taken (d n (omega arith) (omega arith)),
    all_taken-drop_first x f (suc n) taken (λ m a b. d m (omega arith) (omega arith)),
  )

  -- So many different keys are not among fewer.
  pigeonhole :
      (f n : ℕ) (taken : List Str)
      → ((i j : ℕ) → i < n + f → j < i → n ≤ j → str_eq (k i) (k j) ≡ false)
      → all_taken f n taken ≡ true
      → f ≤ length taken
  unfolding all_taken
  pigeonhole zero n taken d h = omega arith
  pigeonhole (suc f) n taken d h =
      let below =
        pigeonhole f (suc n) (drop_first (k n) taken)
          (λ i j a b c. d i j (omega arith) b (omega arith))
          (all_taken-drop_first (k n) f (suc n) taken
            (λ m a b. d m n (omega arith) (omega arith) (omega arith)) (ground arith)) in
      ground (arith, length-drop_first (k n) taken, below)

module _ (lower : Str → Str)
    (keeps_mark : (s : Str) (n : ℕ)
      → n < int_limit
      → lower (s ++ mark_of n) ≡ lower s ++ mark_of n) where
  key-marked :
      (base : Str) (n : ℕ)
      → n < int_limit
      → (q : Str) × (display_name_key lower (suffixed base n) ≡ q ++ mark_of n)
  unfolding suffixed suffix mark_of
  key-marked base n b =
      let short = truncate_runes base (max_display_name_runes - length (suffix n)) in
      let (q, h) = trim_space-marked short n in (lower q, ap lower h ∙ keeps_mark q n b)

  key-different :
      (base : Str) (i j : ℕ)
      → i < int_limit
      → j < i
      → str_eq (display_name_key lower (suffixed base i)) (display_name_key lower (suffixed base j))
        ≡ false
  key-different base i j a b =
      let ki = display_name_key lower (suffixed base i) in
      let kj = display_name_key lower (suffixed base j) in
      elim (Bool-cases (str_eq ki kj)) [
        | inr e ↦ e
        | inl e ↦
            let (q, g) = key-marked base i a in
            let (r, h) = key-marked base j (omega arith) in
            let same = marked-injective q r i j a (omega arith) (sym g ∙ str_eq→≡ ki kj e ∙ h) in
            absurd (omega arith)
      ]

  search-all_taken :
      (turns : ℕ) (base : Str) (next : ℕ) (taken : List Str)
      → search_suffix lower turns base next taken ≡ none
      → all_taken (λ n. display_name_key lower (suffixed base n)) turns next taken ≡ true
  unfolding search_suffix all_taken
  search-all_taken zero base next taken h = refl
  search-all_taken (suc turns) base next taken h =
      ground (arith, search-all_taken turns base (suc next) taken)

  search-free :
      (turns : ℕ) (base : Str) (next : ℕ) (taken : List Str) {name : Str} {after : ℕ}
      → search_suffix lower turns base next taken ≡ some (name, after)
      → (elem (display_name_key lower name) taken ≡ false) × (after ≤ next + turns)
  unfolding search_suffix
  search-free zero base next taken h = cc
  search-free (suc turns) base next taken {name} {after} h =
      elim (Bool-cases (elem (display_name_key lower (suffixed base next)) taken)) [
        | inl e ↦
            let (a, b) =
              search-free turns base (suc next) taken {name = name} {after = after}
                (ground arith) in
            (a, omega arith)
        | inr e ↦ (ground arith, ground arith)
      ]

  -- The search for a free suffix ends: among one more suffix than there are keys that are taken, it
  -- finds a name whose key is not taken, and the next suffix is that far at most, as long as the
  -- suffixes fit an int and the lower case of a text keeps a number in parentheses at its end.
  pub search_suffix-ends :
      (base : Str) (next : ℕ) (taken : List Str)
      → next + suc (length taken) < int_limit
      → (name : Str) × (after : ℕ) × (search_suffix lower (suc (length taken)) base next taken
          ≡ some (name, after))
        × (elem (display_name_key lower name) taken ≡ false)
        × (after ≤ next + suc (length taken))
  search_suffix-ends base next taken h =
      let turns = suc (length taken) in
      elim (Option-cases (search_suffix lower turns base next taken)) [
        | inl e ↦
            let few =
              pigeonhole (λ n. display_name_key lower (suffixed base n)) turns next taken
                (λ i j a b c. key-different base i j (omega arith) b)
                (search-all_taken turns base next taken e) in
            absurd (omega arith)
        | inr ((name, after), e) ↦
            let (a, b) = search-free turns base next taken e in (name, after, e, a, b)
      ]
