-- ===== src/Profile/DisplayName/Duplicates.antt =====
-- Different names for the profiles of a list (internal/profile/display_name.go:
-- `DeduplicateDisplayNames` and `FallbackProfileDisplayName`). The map of the used names is the list
-- of its keys, the map of the next suffixes an association list in which the first entry counts.
pub mod Difference
use podlaz.Common.{
  ℕ, suc, zero, ◌+◌, ◌≤◌, ◌<◌, ◌≡◌, refl, sym, ◌∙◌, ap, Bool, true, false, not, ◌==◌, ltb, List, [],
  ◌∷◌, ◌++◌, Option, none, some, Str, text, all, map, length, elem, is_empty, str_eq, trim_space,
  arith, if◌then◌else◌, Bool-cases, inl, inr, has, IsUnique,
}
use podlaz.Recovery.Text.{itoa}
use podlaz.Recovery.Numbers.{int_limit}
use podlaz.Profile.Model.{Profile}
use podlaz.Profile.Selector.{display_name_key}
use podlaz.Profile.DisplayName.{sanitize_display_name, safe_display_name}
use podlaz.Profile.DisplayName.Suffixes.{search_suffix, search_suffix-ends}
use podlaz.Profile.DisplayName.Marks.{mark_of}

-- `nextSuffixByBase`, which has 0 for a key that is missing.
unfoldable pub next_of : Str → List (Str × ℕ) → ℕ
next_of key [] = 0
next_of key ((k, n) ∷ rest) = let other = next_of key rest in if str_eq k key then n else other

-- What the loop keeps.
pub record Names : Type 0 where
  pub used_final_names : List Str
  pub next_suffix_by_base : List (Str × ℕ)

module _ (lower : Str → Str) where
  -- `FallbackProfileDisplayName`.
  unfoldable pub fallback_name : Str → Str → ℕ → Str
  fallback_name protocol host port =
      elim (sanitize_display_name lower (
        lower (trim_space protocol)
        ++ (text "-" ++ (trim_space host ++ (text "-" ++ itoa port))))) [
          | some sanitized ↦ sanitized
          | none ↦ safe_display_name lower protocol
        ]

  unfoldable pub base_name : Profile → Str
  unfolding fallback_name
  base_name p =
      let base = trim_space p.name in
      if is_empty base then fallback_name p.protocol p.server p.port else base

  -- The suffix that the search starts with.
  unfoldable pub first_suffix : Str → Names → ℕ
  unfolding next_of
  first_suffix base s =
      let next = next_of (display_name_key lower base) s.next_suffix_by_base in
      if ltb next 2 then 2 else next

  -- One turn of the loop: the name of a profile. None is a search that does not end.
  unfoldable pub choose_name : Str → Names → Option (Str × Names)
  unfolding first_suffix search_suffix next_of
  choose_name base s =
      let base_key = display_name_key lower base in
      if elem base_key s.used_final_names
      then elim (search_suffix lower (suc (length s.used_final_names)) base (first_suffix base s)
          s.used_final_names) [
            | none ↦ none
            | some (candidate, next) ↦ some (
              candidate,
              record {
                used_final_names = display_name_key lower candidate ∷ s.used_final_names;
                next_suffix_by_base = (base_key, next) ∷ s.next_suffix_by_base;
              },
            )
          ]
      else some (
        base,
        record {
          used_final_names = base_key ∷ s.used_final_names;
          next_suffix_by_base =
              if next_of base_key s.next_suffix_by_base == 0
              then (base_key, 2) ∷ s.next_suffix_by_base
              else s.next_suffix_by_base;
        },
      )

  unfoldable pub deduplicate_from : List Profile → Names → Option (List Profile)
  unfolding choose_name base_name
  deduplicate_from [] s = some []
  deduplicate_from (p ∷ ps) s = elim (choose_name (base_name p) s) [
    | none ↦ none
    | some (name, s') ↦ elim (deduplicate_from ps s') [
      | none ↦ none
      | some rest ↦ some (record p { name = name } ∷ rest)
    ]
  ]

  -- `DeduplicateDisplayNames`.
  unfoldable pub deduplicate_display_names : List Profile → Option (List Profile)
  unfolding deduplicate_from
  deduplicate_display_names profiles =
      deduplicate_from profiles (record { used_final_names = []; next_suffix_by_base = [] })
