-- ===== src/Session/Protection/Endpoints.antt =====
-- The bootstrap endpoints that pass validation are distinct IPv4 addresses in canonical form.
use podlaz.Common.{
  ◌≡◌, ◌≢◌, false, List, [], ◌∷◌, Option, none, some, ok, arith, All, any, refl, Str, str_eq,
  str_eq_iff, trim_space, Ip4, IsIp4, parse_ip4, show_ip4, parse_ip4-IsIp4, >>-eq-ok,
}
use podlaz.Session.Protection.{
  check_parsed, check_endpoint, endpoints_from, validate_bootstrap_ipv4,
}

-- The canonical text of an IPv4 address.
abbrev pub IsIp4Text : Str → Type 0
IsIp4Text s = (ip : Ip4) × IsIp4 ip × (show_ip4 ip ≡ s)

-- Every value differs from all that were seen before it.
abbrev pub AllFresh : List Str → List Str → Type 0
AllFresh seen [] = Unit
AllFresh seen (x ∷ xs) = All (λ y. x ≢ y) seen × AllFresh (x ∷ seen) xs

abbrev pub IsEndpointSet : List Str → Type 0
IsEndpointSet xs = (xs ≢ []) × All IsIp4Text xs × AllFresh [] xs

check_parsed_sound :
    (seen : List Str) (raw : Str) (o : Option Ip4)
    → check_parsed seen raw o ≡ ok tt
    → (ip : Ip4) × (o ≡ some ip) × (show_ip4 ip ≡ raw) × (any (str_eq raw) seen ≡ false)
unfolding check_parsed
check_parsed_sound seen raw none h = cc
check_parsed_sound seen raw (some ip) h = (
  ip,
  refl,
  ground (arith, str_eq_iff (show_ip4 ip) raw),
  ground (arith, str_eq_iff (show_ip4 ip) raw),
)

check_endpoint_sound :
    (seen : List Str) (raw : Str)
    → check_endpoint seen raw ≡ ok tt
    → IsIp4Text raw × (any (str_eq raw) seen ≡ false)
unfolding check_endpoint
check_endpoint_sound seen raw h =
    let (ip, e, shown, fresh) = check_parsed_sound seen raw (parse_ip4 (trim_space raw)) h in
    ((ip, parse_ip4-IsIp4 (trim_space raw) e, shown), fresh)

ne_of_not-any : (x : Str) (seen : List Str) → any (str_eq x) seen ≡ false → All (λ y. x ≢ y) seen
ne_of_not-any x [] h = tt
ne_of_not-any x (y ∷ seen) h =
    (λ e. ground (arith, str_eq_iff x y), ne_of_not-any x seen (ground arith))

endpoints_from_sound :
    (seen xs : List Str) → endpoints_from seen xs ≡ ok tt → All IsIp4Text xs × AllFresh seen xs
unfolding endpoints_from
endpoints_from_sound seen [] h = (tt, tt)
endpoints_from_sound seen (x ∷ xs) h =
    let (first, rest) = >>-eq-ok (check_endpoint seen x) (endpoints_from (x ∷ seen) xs) h in
    let (valid, fresh) = check_endpoint_sound seen x first in
    let (others, distinct) = endpoints_from_sound (x ∷ seen) xs rest in
    ((valid, others), (ne_of_not-any x seen fresh, distinct))

-- Every accepted list is a non-empty list of distinct IPv4 addresses, each in its canonical text.
pub validate_bootstrap_ipv4-IsEndpointSet :
    (xs : List Str) → validate_bootstrap_ipv4 xs ≡ ok tt → IsEndpointSet xs
unfolding validate_bootstrap_ipv4
validate_bootstrap_ipv4-IsEndpointSet [] h = cc
validate_bootstrap_ipv4-IsEndpointSet (x ∷ xs) h =
    let (valid, distinct) = endpoints_from_sound [] (x ∷ xs) h in (λ e. cc, valid, distinct)
