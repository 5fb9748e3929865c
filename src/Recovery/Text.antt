-- ===== src/Recovery/Text.antt =====
-- What the recovery uses of `strings`, `strconv`, `path/filepath` and `netip`. A path is cleaned to its
-- segments. Numbers of Go are at most 20 digits long, the fuel of `itoa`.
use mathlib.Core.List.{reverse}
use podlaz.Common.{
  ℕ, zero, suc, ◌+◌, ◌*◌, ◌-◌, ◌/◌, ◌%◌, Bool, true, false, not, ◌&&◌, ◌||◌, Option, none, some,
  List, [], ◌∷◌, ◌++◌, Str, text, str_eq, ltb, leb, ◌==◌, if◌then◌else◌, is_digit, is_space,
  is_some, is_empty, split_on, cut_prefix, parse_ip4, keep,
}

unfoldable pub digits : ℕ → ℕ → Str
digits zero n = []
digits (suc fuel) n =
    let rest = digits fuel (n / 10) in
    if ltb n 10 then (n + 48) ∷ [] else rest ++ ((n % 10 + 48) ∷ [])

-- `strconv.Itoa` of a number that is not negative.
unfoldable pub itoa : ℕ → Str
unfolding digits
itoa n = digits 20 n

-- `strings.Join`.
unfoldable pub join : Str → List Str → Str
join sep [] = []
join sep (s ∷ []) = s
join sep (s ∷ t ∷ ts) = s ++ (sep ++ join sep (t ∷ ts))

unfoldable pub push_word : Str → List Str → List Str
push_word [] ws = ws
push_word (c ∷ w) ws = (c ∷ w) ∷ ws

-- `strings.Fields`: the word that is read, and the words behind it.
unfoldable pub words : Str → Str × List Str
words [] = ([], [])
words (c ∷ s) = let (w, ws) = words s in if is_space c then ([], push_word w ws) else (c ∷ w, ws)

unfoldable pub fields : Str → List Str
unfolding push_word words is_space
fields s = let (w, ws) = words s in push_word w ws

-- `strings.Contains`.
unfoldable pub occurs_in : Str → Str → Bool
occurs_in needle [] = is_empty needle
occurs_in needle (c ∷ s) = is_some (cut_prefix needle (c ∷ s)) || occurs_in needle s

-- `strings.HasPrefix`.
unfoldable pub has_prefix : Str → Str → Bool
has_prefix s p = is_some (cut_prefix p s)

-- `strings.TrimSuffix` for a suffix of one rune.
unfoldable pub drop_last : ℕ → Str → Str
drop_last c [] = []
drop_last c (d ∷ []) = if d == c then [] else d ∷ []
drop_last c (d ∷ e ∷ s) = d ∷ drop_last c (e ∷ s)

unfoldable pub digit_value : ℕ → ℕ
digit_value c =
    if is_digit c
    then c - 48
    else if leb b'a' c && leb c b'z'
    then c - 87
    else if leb b'A' c && leb c b'Z'
    then c - 55
    else 99

-- The value of a number without its prefix: `limit` is the first value that overflows.
unfoldable pub number_from : ℕ → ℕ → ℕ → Str → Option ℕ
number_from base limit acc [] = some acc
number_from base limit acc (c ∷ s) =
    let n = acc * base + digit_value c in
    let rest = number_from base limit n s in
    if ltb (digit_value c) base && ltb n limit then rest else none

unfoldable pub number : ℕ → ℕ → Str → Option ℕ
number base limit [] = none
number base limit (c ∷ s) = number_from base limit 0 (c ∷ s)

-- `strconv.Atoi` of a number that is not negative, with or without its sign.
unfoldable pub atoi : Str → Option ℕ
unfolding number number_from digit_value is_digit
atoi [] = none
atoi (c ∷ s) =
    if c == b'+' then number 10 0x8000000000000000 s else number 10 0x8000000000000000 (c ∷ s)

-- What an underscore may follow, in `underscoreOK`.
pub data Before : Type 0 where
  at_start after_digit after_underscore after_other : Before

is_hex_letter : ℕ → Bool
is_hex_letter c = (leb b'a' c && leb c b'f') || (leb b'A' c && leb c b'F')

next_underscore : Before → Option Before
next_underscore after_digit = some after_underscore
next_underscore _ = none

next_other : Before → Option Before
next_other after_underscore = none
next_other _ = some after_other

after_rune : Bool → Before → ℕ → Option Before
after_rune hex b c =
    if is_digit c || (hex && is_hex_letter c)
    then some after_digit
    else if c == b'_'
    then next_underscore b
    else next_other b

not_underscore : Before → Bool
not_underscore after_underscore = false
not_underscore _ = true

underscores_from : Bool → Before → Str → Bool
underscores_from hex b [] = not_underscore b
underscores_from hex b (c ∷ s) = elim (after_rune hex b c) [
  | none ↦ false
  | some b' ↦ underscores_from hex b' s
]

parse_base : ℕ → Bool → Before → Str → Option ℕ
parse_base base hex b s =
    if underscores_from hex b s
    then number base 0x100000000 (keep (λ c. not (c == b'_')) s)
    else none

-- The digits behind a leading zero, which may be one of a prefix, the prefix of base 8, or the number.
after_zero : Str → Option ℕ
after_zero [] = some 0
after_zero (c ∷ []) = parse_base 8 false after_digit (c ∷ [])
after_zero (c ∷ d ∷ s) =
    if c == b'x' || c == b'X'
    then parse_base 16 true after_digit (d ∷ s)
    else if c == b'b' || c == b'B'
    then parse_base 2 false after_digit (d ∷ s)
    else if c == b'o' || c == b'O'
    then parse_base 8 false after_digit (d ∷ s)
    else parse_base 8 false after_digit (c ∷ d ∷ s)

tail : Str → Str
tail [] = []
tail (c ∷ s) = s

-- `strconv.ParseUint(s, 0, 32)`: the base is that of the prefix.
unfoldable pub parse_uint32 : Str → Option ℕ
unfolding number number_from digit_value is_digit is_hex_letter next_underscore next_other
    after_rune not_underscore underscores_from parse_base keep after_zero tail has_prefix
parse_uint32 s =
    if has_prefix s (text "0") then after_zero (tail s) else parse_base 10 false at_start s

-- `netip.ParsePrefix` of an IPv4 address with all its bits: the text before `/32`.
unfoldable pub host_prefix : Str → Option Str
host_prefix s = elim (cut_prefix (reverse (text "/32")) (reverse s)) [
  | none ↦ none
  | some r ↦ if is_some (parse_ip4 (reverse r)) then some (reverse r) else none
]

unfoldable pub is_host_prefix : Str → Bool
is_host_prefix s = is_some (host_prefix s)

-- A path as `filepath.Clean` leaves it.
pub record CleanPath : Type 0 where
  pub rooted : Bool
  pub segments : List Str

-- The segments read so far stand in reverse.
pop : Bool → List Str → List Str
pop rooted [] = if rooted then [] else text ".." ∷ []
pop rooted (s ∷ ss) = if str_eq s (text "..") then text ".." ∷ s ∷ ss else ss

clean_from : Bool → List Str → List Str → List Str
clean_from rooted seen [] = reverse seen
clean_from rooted seen (s ∷ ss) =
    if is_empty s || str_eq s (text ".")
    then clean_from rooted seen ss
    else if str_eq s (text "..")
    then clean_from rooted (pop rooted seen) ss
    else clean_from rooted (s ∷ seen) ss

is_rooted : Str → Bool
is_rooted [] = false
is_rooted (c ∷ s) = c == b'/'

unfoldable pub clean : Str → CleanPath
unfolding pop clean_from is_rooted split_on str_eq
clean s = record {
  rooted = is_rooted s;
  segments = (let (f, fs) = split_on b'/' s in clean_from (is_rooted s) [] (f ∷ fs));
}

or_dot : Str → Str
or_dot s = if is_empty s then text "." else s

-- The text of a path.
unfoldable pub path_text : CleanPath → Str
unfolding or_dot join
path_text p =
    if p.rooted then b'/' ∷ join (text "/") p.segments else or_dot (join (text "/") p.segments)

unfoldable pub path_eq : List Str → List Str → Bool
path_eq [] [] = true
path_eq [] (t ∷ ts) = false
path_eq (s ∷ ss) [] = false
path_eq (s ∷ ss) (t ∷ ts) = str_eq s t && path_eq ss ts

bool_eq : Bool → Bool → Bool
bool_eq true b = b
bool_eq false b = not b

unfoldable pub same_clean_path : CleanPath → CleanPath → Bool
unfolding path_eq bool_eq
same_clean_path p q = bool_eq p.rooted q.rooted && path_eq p.segments q.segments

inside : List Str → List Str → Bool
inside [] [] = true
inside [] (t ∷ ts) = not (has_prefix t (text ".."))
inside (s ∷ ss) [] = false
inside (s ∷ ss) (t ∷ ts) = str_eq s t && inside ss ts

-- `isUnderDir`.
unfoldable pub is_under_dir : CleanPath → CleanPath → Bool
unfolding inside bool_eq
is_under_dir dir path = bool_eq dir.rooted path.rooted && inside dir.segments path.segments

-- `filepath.Join` with one more segment.
abbrev pub join_path : CleanPath → Str → CleanPath
join_path dir name = record { rooted = dir.rooted; segments = dir.segments ++ (name ∷ []) }

last_segment : List Str → Str
last_segment [] = []
last_segment (s ∷ []) = s
last_segment (s ∷ t ∷ ts) = last_segment (t ∷ ts)

ends_with : Str → Str → Bool
ends_with s end = is_some (cut_prefix (reverse end) (reverse s))

-- `isTransactionPath`.
unfoldable pub is_transaction_path : CleanPath → CleanPath → Bool
unfolding last_segment ends_with
is_transaction_path runtime_dir path =
    is_under_dir (join_path runtime_dir (text "transactions")) path
    && ends_with (last_segment path.segments) (text ".json")
