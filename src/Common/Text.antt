-- ===== src/Common/Text.antt =====
-- Go strings as lists of code points, and what the program uses of `strings` and `unicode`.
use Prim.Native.Nat.{ℕ, ◌+◌}
use Prim.Native.Char.{code}
use Prim.Native.String.{String}
use mathlib.Core.Path.{◌≡◌, refl}
use mathlib.Core.Logic.{◌↔◌}
use mathlib.Core.Bool.{Bool, true, false, ◌&&◌, ◌||◌}
use mathlib.Core.Option.{Option, none, some}
use mathlib.Core.List.{List, [], ◌∷◌, map, reverse}
use native.Mathlib.Omega.{arith}
use podlaz.Common.Tests.{◌==◌, ltb, leb, if◌then◌else◌}

abbrev pub Str : Type 0
Str = List ℕ

abbrev pub text : String → Str
text String.[] = []
text (String.◌∷◌ c s) = code c ∷ text s

unfoldable pub str_eq : Str → Str → Bool
str_eq [] [] = true
str_eq [] (d ∷ t) = false
str_eq (c ∷ s) [] = false
str_eq (c ∷ s) (d ∷ t) = c == d && str_eq s t

pub str_eq_refl : (s : Str) → str_eq s s ≡ true
unfolding str_eq
str_eq_refl [] = refl
str_eq_refl (c ∷ s) = ground (arith, str_eq_refl s)

pub str_eq→≡ : (s t : Str) → str_eq s t ≡ true → s ≡ t
unfolding str_eq
str_eq→≡ [] [] h = refl
str_eq→≡ [] (d ∷ t) h = cc
str_eq→≡ (c ∷ s) [] h = cc
str_eq→≡ (c ∷ s) (d ∷ t) h = ground (arith, str_eq→≡ s t)

pub str_eq_iff : (s t : Str) → (str_eq s t ≡ true) ↔ (s ≡ t)
str_eq_iff s t = (str_eq→≡ s t, λ e. ground (arith, str_eq_refl s))

-- Byte order of UTF-8, which is the order of code points.
unfoldable pub str_lt : Str → Str → Bool
str_lt s [] = false
str_lt [] (d ∷ t) = true
str_lt (c ∷ s) (d ∷ t) = ltb c d || (c == d && str_lt s t)

pub str_lt_irrefl : (s : Str) → str_lt s s ≡ false
unfolding str_lt
str_lt_irrefl [] = refl
str_lt_irrefl (c ∷ s) = ground (arith, str_lt_irrefl s)

pub str_lt_trans : (s t u : Str) → str_lt s t ≡ true → str_lt t u ≡ true → str_lt s u ≡ true
unfolding str_lt
str_lt_trans [] [] u h k = cc
str_lt_trans [] (d ∷ t) [] h k = cc
str_lt_trans [] (d ∷ t) (e ∷ u) h k = refl
str_lt_trans (c ∷ s) [] u h k = cc
str_lt_trans (c ∷ s) (d ∷ t) [] h k = cc
str_lt_trans (c ∷ s) (d ∷ t) (e ∷ u) h k = ground (arith, str_lt_trans s t u)

pub str_lt_total : (s t : Str) → str_lt s t ≡ false → str_lt t s ≡ false → s ≡ t
unfolding str_lt
str_lt_total [] [] h k = refl
str_lt_total [] (d ∷ t) h k = cc
str_lt_total (c ∷ s) [] h k = cc
str_lt_total (c ∷ s) (d ∷ t) h k = ground (arith, str_lt_total s t)

-- `unicode.IsSpace`.
unfoldable pub is_space : ℕ → Bool
is_space c =
    (leb 9 c && leb c 13)
    || c == 32
    || c == 0x85
    || c == 0xa0
    || c == 0x1680
    || (leb 0x2000 c && leb c 0x200a)
    || c == 0x2028
    || c == 0x2029
    || c == 0x202f
    || c == 0x205f
    || c == 0x3000

unfoldable pub trim_left : Str → Str
trim_left [] = []
trim_left (c ∷ s) = if is_space c then trim_left s else c ∷ s

-- `strings.TrimSpace`.
unfoldable pub trim_space : Str → Str
unfolding trim_left is_space
trim_space s = reverse (trim_left (reverse (trim_left s)))

-- `unicode.ToLower` on ASCII, and on the two other code points whose lower case is ASCII. Other
-- letters are kept: their lower case is not ASCII, and the program compares with ASCII words.
unfoldable pub lower_rune : ℕ → ℕ
lower_rune c =
    if leb b'A' c && leb c b'Z'
    then c + 32
    else if c == 0x130
    then b'i'
    else if c == 0x212a
    then b'k'
    else c

unfoldable pub to_lower : Str → Str
unfolding lower_rune
to_lower = map lower_rune

-- `strings.EqualFold` against an ASCII word: simple folding joins `K` (U+212A) with k and U+017F
-- with s.
unfoldable pub fold_rune : ℕ → ℕ
fold_rune c =
    if leb b'A' c && leb c b'Z'
    then c + 32
    else if c == 0x17f
    then b's'
    else if c == 0x212a
    then b'k'
    else c

unfoldable pub equal_fold : Str → Str → Bool
unfolding fold_rune str_eq
equal_fold s t = str_eq (map fold_rune s) (map fold_rune t)

-- `strings.CutPrefix`: the rest behind a prefix.
unfoldable pub cut_prefix : Str → Str → Option Str
cut_prefix [] s = some s
cut_prefix (p ∷ ps) [] = none
cut_prefix (p ∷ ps) (c ∷ s) = if p == c then cut_prefix ps s else none

unfoldable pub is_digit : ℕ → Bool
is_digit c = leb b'0' c && leb c b'9'

unfoldable pub is_lower_hex : ℕ → Bool
unfolding is_digit
is_lower_hex c = is_digit c || (leb b'a' c && leb c b'f')

unfoldable pub is_alnum : ℕ → Bool
unfolding is_digit
is_alnum c = is_digit c || (leb b'a' c && leb c b'z') || (leb b'A' c && leb c b'Z')
