-- ===== src/Profile/Selector.antt =====
-- How a user names a profile (internal/profile/store.go: `resolveProfile`). `lower` is
-- `strings.ToLower` on every letter.
use podlaz.Common.{
  ℕ, zero, suc, ◌+◌, ◌-◌, ◌*◌, ◌^◌, Bool, true, false, not, ◌&&◌, ◌||◌, List, [], ◌∷◌, Option, none,
  some, Str, text, trim_space, is_empty, is_digit, cut_prefix, any, all, ltb, leb, ◌==◌,
  if◌then◌else◌, Result, ok, err, find, keep, sort_by, str_eq,
}
use podlaz.Profile.Model.{Profile, id_of}

pub data StoreError : Type 0 where
  not_found already_exists no_selection ambiguous_selector invalid_position profile_changed :
      StoreError
  invalid_profile duplicate_in_batch wrong_source foreign_collision : StoreError
  lock_failed unreadable invalid_json unsupported_schema stored_invalid stored_duplicate :
      StoreError
  write_failed : StoreError

-- `IsPositionalSelector`.
unfoldable pub is_positional : Str → Bool
unfolding is_digit
is_positional selector = not (is_empty (trim_space selector)) && all is_digit (trim_space selector)

decimal : ℕ → Str → ℕ
decimal acc [] = acc
decimal acc (c ∷ s) = decimal (acc * 10 + (c - 48)) s

-- `strconv.Atoi` of decimal digits.
unfoldable pub atoi : Str → Option ℕ
unfolding decimal
atoi s = if ltb (decimal 0 s) (2 ^ 63) then some (decimal 0 s) else none

-- The first digits of the blocks of ten decimal digits of Unicode behind ASCII.
abbrev digit_blocks : List ℕ
digit_blocks =
    0x660 ∷ 0x6f0 ∷ 0x7c0 ∷ 0x966 ∷ 0x9e6 ∷ 0xa66 ∷ 0xae6 ∷ 0xb66 ∷ 0xbe6 ∷ 0xc66 ∷ 0xce6 ∷ 0xd66
    ∷ 0xde6 ∷ 0xe50 ∷ 0xed0 ∷ 0xf20 ∷ 0x1040 ∷ 0x1090 ∷ 0x17e0 ∷ 0x1810 ∷ 0x1946 ∷ 0x19d0 ∷ 0x1a80
    ∷ 0x1a90 ∷ 0x1b50 ∷ 0x1bb0 ∷ 0x1c40 ∷ 0x1c50 ∷ 0xa620 ∷ 0xa8d0 ∷ 0xa900 ∷ 0xa9d0 ∷ 0xa9f0
    ∷ 0xaa50 ∷ 0xabf0 ∷ 0xff10 ∷ 0x104a0 ∷ 0x10d30 ∷ 0x11066 ∷ 0x110f0 ∷ 0x11136 ∷ 0x111d0 ∷ 0x112f0
    ∷ 0x11450 ∷ 0x114d0 ∷ 0x11650 ∷ 0x116c0 ∷ 0x11730 ∷ 0x118e0 ∷ 0x11950 ∷ 0x11c50 ∷ 0x11d50
    ∷ 0x11da0 ∷ 0x11f50 ∷ 0x16a60 ∷ 0x16ac0 ∷ 0x16b50 ∷ 0x1d7ce ∷ 0x1d7d8 ∷ 0x1d7e2 ∷ 0x1d7ec
    ∷ 0x1d7f6 ∷ 0x1e140 ∷ 0x1e2f0 ∷ 0x1e4f0 ∷ 0x1e950 ∷ 0x1fbf0 ∷ []

-- `unicode.IsDigit` of a rune that is not an ASCII digit.
is_other_digit : ℕ → Bool
is_other_digit c = any (λ b. leb b c && ltb c (b + 10)) digit_blocks

starts_with_digit : Str → Bool
starts_with_digit [] = false
starts_with_digit (c ∷ s) = is_digit c

-- One sign fewer.
trim_sign : ℕ → Str → Str
trim_sign sign [] = []
trim_sign sign (c ∷ s) = if c == sign then s else c ∷ s

is_numeric_rune : ℕ → Bool
is_numeric_rune c = is_digit c || any (◌==◌ c) (text ".+_-xXeE")

-- `invalidNumericForm`.
unfoldable pub is_invalid_numeric : Str → Bool
unfolding is_other_digit starts_with_digit trim_sign is_numeric_rune is_digit
is_invalid_numeric [] = false
is_invalid_numeric (c ∷ s) =
    if is_other_digit c
    then true
    else if c == b'+' || c == b'-'
    then starts_with_digit (trim_sign b'-' (trim_sign b'+' (c ∷ s)))
    else is_digit c && all is_numeric_rune (c ∷ s)

unfoldable pub get_elem? : List Profile → ℕ → Option Profile
get_elem? [] i = none
get_elem? (x ∷ xs) zero = some x
get_elem? (x ∷ xs) (suc i) = get_elem? xs i

unfoldable pub or_error : StoreError → Option Profile → Result StoreError Profile
or_error e none = err e
or_error e (some p) = ok p

unfoldable pub row : List Profile → Option ℕ → Option Profile
row sorted none = none
row sorted (some zero) = none
row sorted (some (suc i)) = get_elem? sorted i

unfoldable pub only : List Profile → Result StoreError Profile
only [] = err not_found
only (p ∷ []) = ok p
only (p ∷ q ∷ ps) = err ambiguous_selector

-- `profileByID`.
abbrev pub profile_by_id : List Profile → Str → Option Profile
profile_by_id profiles id = find id_of id profiles

module _ (lower : Str → Str) where
  -- `displayNameKey`.
  abbrev pub display_name_key : Str → Str
  display_name_key name = lower (trim_space name)

  -- The profiles of a name.
  unfoldable pub named : Str → List Profile → List Profile
  named name profiles =
      keep (λ p. str_eq (display_name_key p.name) (display_name_key name)) profiles

  unfoldable pub by_id_or_name : List Profile → Str → Option Profile → Result StoreError Profile
  unfolding only named
  by_id_or_name profiles selector (some p) = ok p
  by_id_or_name profiles selector none = only (named selector profiles)

  unfoldable pub resolve_trimmed : List Profile → Str → Option Str → Result StoreError Profile
  unfolding or_error row is_positional is_invalid_numeric by_id_or_name
  resolve_trimmed profiles selector (some id) = or_error not_found (profile_by_id profiles id)
  resolve_trimmed profiles selector none =
      if is_positional selector
      then or_error invalid_position (row (sort_by id_of profiles) (atoi selector))
      else if is_invalid_numeric selector
      then err invalid_position
      else by_id_or_name profiles selector (profile_by_id profiles selector)

  -- `resolveProfile`.
  unfoldable pub resolve : List Profile → Str → Result StoreError Profile
  unfolding resolve_trimmed
  resolve profiles selector =
      if is_empty (trim_space selector)
      then err not_found
      else resolve_trimmed profiles (trim_space selector)
          (cut_prefix (text "id:") (trim_space selector))
