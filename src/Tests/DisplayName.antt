-- ===== src/Tests/DisplayName.antt =====
-- Names and identities of profiles, from raw texts.
use podlaz.Common.{
  ℕ, suc, zero, ◌+◌, ◌<◌, ◌≤◌, ◌≡◌, refl, sym, ◌∙◌, ap, true, false, some, none, List, [], ◌∷◌,
  ◌++◌, Str, text, length, elem, all, arith, map, IsUnique, lower_rune, to_lower, trim_left,
  trim_space, is_space, is_digit, is_alnum, cut_prefix,
}
use podlaz.Profile.DisplayName.{
  is_control, is_separator, collapse, take, truncate_runes, contains, is_unsafe, accept,
  sanitize_display_name, is_id_letter, is_id_separator, id_runes, trim_separators_left,
  trim_separators, normalize_id, safe_display_name, provider_display_name,
}
use podlaz.Profile.Selector.{display_name_key}
use podlaz.Recovery.Text.{itoa}
use podlaz.Recovery.Numbers.{int_limit, itoa-IsDigits}
use podlaz.Profile.DisplayName.Marks.{mark_of, all_digits}
use podlaz.Profile.DisplayName.Suffixes.{suffix, suffixed, search_suffix}
use podlaz.Profile.Model.{Profile, manual}
use podlaz.Profile.DisplayName.Duplicates.{
  next_of, fallback_name, base_name, first_suffix, choose_name, deduplicate_from,
  deduplicate_display_names,
}
use podlaz.Profile.DisplayName.Duplicates.Difference.{
  last_suffix, unnamed, deduplicate_display_names-IsUnique,
}
use podlaz.Tests.Profile.{profile}
use podlaz.Profile.DisplayName.Safety.{IsDisplayName, sanitize_display_name-IsDisplayName}

program : Unit {0}
unfolding to_lower trim_left trim_space is_space is_digit is_alnum cut_prefix is_control
    is_separator collapse take truncate_runes contains is_unsafe accept sanitize_display_name
    is_id_letter is_id_separator id_runes trim_separators_left trim_separators normalize_id
    safe_display_name provider_display_name
program = tt

sanitized : sanitize_display_name to_lower (text "  Fast /  DE\\1 ") ≡ some (text "Fast DE 1")
unfolding program
sanitized = refl

link_refused : sanitize_display_name to_lower (text "VLESS://x") ≡ none
unfolding program
link_refused = refl

opaque_refused :
    provider_display_name to_lower (text "AbCdEf123456") (text "VLESS")
    ≡ (text "vless-profile", false)
unfolding program
opaque_refused = refl

normalized : normalize_id to_lower (text " My  Home.-Server! ") ≡ text "my-home.server"
unfolding program
normalized = refl

sanitize_display_name-IsDisplayName_example : IsDisplayName to_lower (text "Fast DE 1")
unfolding program
sanitize_display_name-IsDisplayName_example =
    sanitize_display_name-IsDisplayName to_lower (text "  Fast /  DE\\1 ") (text "Fast DE 1") refl

lower-digits : (s t : Str) → all is_digit s ≡ true → to_lower (s ++ t) ≡ s ++ to_lower t
unfolding to_lower lower_rune is_digit
lower-digits [] t h = refl
lower-digits (c ∷ s) t h = ground (arith, lower-digits s t (ground arith))

to_lower-marked :
    (s : Str) (n : ℕ) → n < int_limit → to_lower (s ++ mark_of n) ≡ to_lower s ++ mark_of n
unfolding to_lower lower_rune mark_of
to_lower-marked [] n h =
    ap (λ l. b'(' ∷ l) (lower-digits (itoa n) (b')' ∷ []) (all_digits (itoa n) (itoa-IsDigits n h)))
to_lower-marked (c ∷ s) n h = ap (λ l. lower_rune c ∷ l) (to_lower-marked s n h)

second_taken :
    search_suffix to_lower 3 (text "Work") 2 (text "work (2)" ∷ text "work" ∷ [])
    ≡ some (text "Work (3)", 4)
unfolding program suffix suffixed search_suffix podlaz.Common.str_eq itoa
second_taken = refl

abbrev work_profiles : List Profile
work_profiles =
    profile (text "a") (text " Work") manual
    ∷ profile (text "b") (text "work") manual
    ∷ profile (text "c") (text "Work (2)") manual
    ∷ profile (text "d") (text " ") manual
    ∷ []

abbrev deduplicated : List Profile
deduplicated =
    profile (text "a") (text "Work") manual
    ∷ profile (text "b") (text "work (2)") manual
    ∷ profile (text "c") (text "Work (2) (2)") manual
    ∷ profile (text "d") (text "vless-vpn.example.org-443") manual
    ∷ []

names_differ : deduplicate_display_names to_lower work_profiles ≡ some deduplicated
unfolding program suffix suffixed search_suffix podlaz.Common.str_eq itoa next_of fallback_name
    base_name first_suffix choose_name deduplicate_from deduplicate_display_names
names_differ = refl

work_profiles_fit : last_suffix 2 0 (length work_profiles) < int_limit
unfolding last_suffix
work_profiles_fit = omega arith

deduplicate_display_names-IsUnique_example :
    (qs : List Profile) × (deduplicate_display_names to_lower work_profiles ≡ some qs)
    × IsUnique (λ p. display_name_key to_lower p.name) qs
    × (map unnamed qs ≡ map unnamed work_profiles)
deduplicate_display_names-IsUnique_example =
    deduplicate_display_names-IsUnique to_lower to_lower-marked work_profiles work_profiles_fit
