-- ===== src/Profile/DisplayName.antt =====
-- The names that people see and the identities that are made of them (internal/profile/display_name.go,
-- profile.go: `NormalizeID`). `lower` is the lower case of a text.
pub mod Safety
pub mod Marks
pub mod Suffixes
pub mod Duplicates
use mathlib.Core.List.{reverse}
use podlaz.Common.{
  ℕ, suc, zero, ◌+◌, ◌-◌, Bool, true, false, not, ◌&&◌, ◌||◌, ◌==◌, leb, ltb, List, [], ◌∷◌, ◌++◌,
  Option, none, some, Str, text, all, any, length, is_empty, is_some, is_space, is_digit, is_alnum,
  trim_space, cut_prefix, if◌then◌else◌,
}

abbrev pub max_display_name_runes : ℕ
max_display_name_runes = 80

-- `unicode.IsControl`.
unfoldable pub is_control : ℕ → Bool
is_control c = leb c 31 || (leb 127 c && leb c 159)

-- The runes that the loop of `SanitizeDisplayName` makes one space of.
unfoldable pub is_separator : ℕ → Bool
unfolding is_control is_space
is_separator c = c == b'/' || c == b'\\' || is_control c || is_space c

-- That loop: whether something was written, and whether a space was last.
unfoldable pub collapse : Bool → Bool → Str → Str
unfolding is_separator
collapse started last_space [] = []
collapse started last_space (c ∷ s) =
    if not (is_separator c)
    then c ∷ collapse true false s
    else if started && not last_space
    then b' ' ∷ collapse true true s
    else collapse started last_space s

unfoldable pub take : ℕ → Str → Str
take zero s = []
take (suc n) [] = []
take (suc n) (c ∷ s) = c ∷ take n s

-- `truncateRunes`.
unfoldable pub truncate_runes : Str → ℕ → Str
unfolding take trim_space
truncate_runes value max =
    if max == 0 then [] else if leb (length value) max then value else trim_space (take max value)

-- `strings.Contains`.
unfoldable pub contains : Str → Str → Bool
contains word [] = is_some (cut_prefix word [])
contains word (c ∷ s) = is_some (cut_prefix word (c ∷ s)) || contains word s

abbrev has_prefix : Str → Str → Bool
has_prefix s word = is_some (cut_prefix word s)

is_hex : ℕ → Bool
is_hex c = is_digit c || (leb b'a' c && leb c b'f') || (leb b'A' c && leb c b'F')

-- So many hexadecimal digits, and what must follow.
hex_digits : ℕ → (Str → Bool) → Str → Bool
unfolding is_hex
hex_digits zero next s = next s
hex_digits (suc n) next [] = false
hex_digits (suc n) next (c ∷ s) = is_hex c && hex_digits n next s

dash : (Str → Bool) → Str → Bool
dash next [] = false
dash next (c ∷ s) = c == b'-' && next s

-- `uuidPattern`.
is_uuid : Str → Bool
unfolding hex_digits dash
is_uuid = hex_digits 8 (
    dash (hex_digits 4 (dash (hex_digits 4 (dash (hex_digits 4 (dash (hex_digits 12 is_empty))))))))

-- `looksSensitiveLike`.
looks_sensitive : Str → Bool
unfolding contains
looks_sensitive value =
    any (λ marker. contains marker value)
      (text "token"
        ∷ text "password"
        ∷ text "passwd"
        ∷ text "secret"
        ∷ text "private"
        ∷ text "authorization"
        ∷ text "api_key"
        ∷ text "apikey"
        ∷ [])

is_break : ℕ → Bool
is_break c = c == b' ' || c == 9 || c == 10 || c == 13 || c == b'-' || c == b'_' || c == b'.'

-- `looksOpaqueMachineIDLike`.
looks_opaque : Str → Bool
unfolding is_break is_alnum trim_space
looks_opaque value =
    let compact = trim_space value in
    not (ltb (length compact) 12 || any is_break compact) && all is_alnum compact

module _ (lower : Str → Str) where
  -- `unsafeDisplayName`.
  unfoldable pub is_unsafe : Str → Bool
  unfolding is_uuid looks_sensitive looks_opaque contains trim_space
  is_unsafe value =
      let v = lower (trim_space value) in
      is_empty v
      || is_uuid v
      || looks_sensitive v
      || contains (text "://") v
      || any (has_prefix v) (text "vless:" ∷ text "vmess:" ∷ text "trojan:" ∷ text "ss:" ∷ [])
      || ((has_prefix v (text "{") || has_prefix v (text "["))
          && (contains (text "outbounds") v || contains (text "inbounds") v))
      || looks_opaque value

  -- The result of `SanitizeDisplayName`, of the trimmed result of its loop.
  unfoldable pub accept : Str → Option Str
  unfolding truncate_runes is_unsafe
  accept name =
      if is_empty name
      then none
      else let short = truncate_runes name max_display_name_runes in
        (if is_unsafe short then none else some short)

  -- `SanitizeDisplayName`. A text has no invalid encodings here.
  unfoldable pub sanitize_display_name : Str → Option Str
  unfolding accept collapse trim_space
  sanitize_display_name raw =
      let name = trim_space raw in
      if is_empty name then none else accept (trim_space (collapse false false name))

  unfoldable pub is_id_letter : ℕ → Bool
  is_id_letter c = leb b'a' c && leb c b'z' || is_digit c

  unfoldable pub is_id_separator : ℕ → Bool
  is_id_separator c = c == b'.' || c == b'_' || c == b'-'

  -- The loop of `NormalizeID`.
  unfoldable pub id_runes : Bool → Bool → Str → Str
  id_runes started last_separator [] = []
  id_runes started last_separator (c ∷ s) =
      if is_id_letter c
      then c ∷ id_runes true false s
      else if is_id_separator c && started && not last_separator
      then c ∷ id_runes true true s
      else if not (is_id_separator c) && is_space c && started && not last_separator
      then b'-' ∷ id_runes true true s
      else id_runes started last_separator s

  unfoldable pub trim_separators_left : Str → Str
  trim_separators_left [] = []
  trim_separators_left (c ∷ s) = if is_id_separator c then trim_separators_left s else c ∷ s

  -- `strings.Trim` of the separators.
  unfoldable pub trim_separators : Str → Str
  unfolding trim_separators_left
  trim_separators s = reverse (trim_separators_left (reverse (trim_separators_left s)))

  -- `NormalizeID`.
  unfoldable pub normalize_id : Str → Str
  unfolding id_runes trim_separators trim_space
  normalize_id name = trim_separators (id_runes false false (lower (trim_space name)))

  -- `SafeProfileDisplayName`.
  unfoldable pub safe_display_name : Str → Str
  unfolding normalize_id
  safe_display_name protocol =
      let id = normalize_id protocol in
      if is_empty id then text "profile" else id ++ text "-profile"

  or_safe : Str → Option Str → Str × Bool
  unfolding safe_display_name
  or_safe protocol (some name) = (name, true)
  or_safe protocol none = (safe_display_name protocol, false)

  -- `ProviderProfileDisplayName`.
  unfoldable pub provider_display_name : Str → Str → Str × Bool
  unfolding or_safe sanitize_display_name
  provider_display_name raw protocol = or_safe protocol (sanitize_display_name raw)
