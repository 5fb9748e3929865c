-- ===== src/Common/Address.antt =====
-- IPv4 addresses as text: what the program uses of `net.ParseIP`, `To4` and `String`.
use Prim.Native.Nat.{ℕ, ◌+◌, ◌*◌, ◌-◌, ◌/◌, ◌%◌, ◌≤◌}
use mathlib.Core.Path.{◌≡◌, refl}
use mathlib.Core.Bool.{Bool, false, not, ◌&&◌}
use mathlib.Core.Option.{Option, none, some}
use mathlib.Core.List.{List, [], ◌∷◌, ◌++◌}
use native.Mathlib.Omega.{arith}
use podlaz.Common.Tests.{◌==◌, ltb, leb, if◌then◌else◌}
use podlaz.Common.Lists.{all}
use podlaz.Common.Text.{Str, is_digit}

-- The value of a run of decimal digits.
decimal : ℕ → Str → ℕ
decimal acc [] = acc
decimal acc (c ∷ s) = decimal (acc * 10 + (c - 48)) s

has_leading_zero : Str → Bool
has_leading_zero [] = false
has_leading_zero (c ∷ []) = false
has_leading_zero (c ∷ _ ∷ _) = c == 48

parse_octet : Str → Option ℕ
parse_octet [] = none
parse_octet (c ∷ s) =
    if all is_digit (c ∷ s) && not (has_leading_zero (c ∷ s)) && leb (decimal 0 (c ∷ s)) 255
    then some (decimal 0 (c ∷ s))
    else none

-- `strings.Split(s, sep)` for one separator: the first field, and the others.
unfoldable pub split_on : ℕ → Str → Str × List Str
split_on sep [] = ([], [])
split_on sep (c ∷ s) =
    let (first, others) = split_on sep s in
    if c == sep then ([], first ∷ others) else (c ∷ first, others)

pub record Ip4 : Type 0 where
  pub a : ℕ
  pub b : ℕ
  pub c : ℕ
  pub d : ℕ

four : Option ℕ → Option ℕ → Option ℕ → Option ℕ → Option Ip4
four (some a) (some b) (some c) (some d) = some (record { a = a; b = b; c = c; d = d })
four _ _ _ _ = none

parse_fields : Str → List Str → Option Ip4
parse_fields f (g ∷ h ∷ i ∷ []) =
    four (parse_octet f) (parse_octet g) (parse_octet h) (parse_octet i)
parse_fields _ _ = none

unfoldable pub parse_ip4 : Str → Option Ip4
unfolding decimal has_leading_zero parse_octet split_on four parse_fields is_digit
parse_ip4 s = let (f, fs) = split_on b'.' s in parse_fields f fs

show_octet : ℕ → Str
show_octet n =
    if ltb n 10
    then (n + 48) ∷ []
    else if ltb n 100
    then (n / 10 + 48) ∷ (n % 10 + 48) ∷ []
    else (n / 100 + 48) ∷ (n / 10 % 10 + 48) ∷ (n % 10 + 48) ∷ []

unfoldable pub show_ip4 : Ip4 → Str
unfolding show_octet
show_ip4 ip =
    show_octet ip.a
    ++ (b'.' ∷ (show_octet ip.b ++ (b'.' ∷ (show_octet ip.c ++ (b'.' ∷ show_octet ip.d)))))

pub record IsIp4 (ip : Ip4) : Type 0 where
  pub a_le : ip.a ≤ 255
  pub b_le : ip.b ≤ 255
  pub c_le : ip.c ≤ 255
  pub d_le : ip.d ≤ 255

parse_octet-le : (s : Str) {n : ℕ} → parse_octet s ≡ some n → n ≤ 255
unfolding parse_octet
parse_octet-le [] h = cc
parse_octet-le (c ∷ s) h = ground arith

parse_fields-IsIp4 : (f : Str) (fs : List Str) {ip : Ip4} → parse_fields f fs ≡ some ip → IsIp4 ip
unfolding parse_fields four
parse_fields-IsIp4 f (g ∷ h ∷ i ∷ []) e =
    grind (arith, parse_octet-le f, parse_octet-le g, parse_octet-le h, parse_octet-le i)
parse_fields-IsIp4 f [] e = cc
parse_fields-IsIp4 f (g ∷ []) e = cc
parse_fields-IsIp4 f (g ∷ h ∷ []) e = cc
parse_fields-IsIp4 f (g ∷ h ∷ i ∷ j ∷ js) e = cc

pub parse_ip4-IsIp4 : (s : Str) {ip : Ip4} → parse_ip4 s ≡ some ip → IsIp4 ip
unfolding parse_ip4
parse_ip4-IsIp4 s e = parse_fields-IsIp4 (split_on b'.' s).0 (split_on b'.' s).1 e

round_trip :
    parse_ip4 (show_ip4 (record { a = 10; b = 0; c = 255; d = 7 }))
    ≡ some (record { a = 10; b = 0; c = 255; d = 7 })
unfolding parse_ip4 show_ip4
round_trip = refl
