-- ===== src/Profile/Host.antt =====
-- Host names and IP addresses as text: `validHostname` (internal/profile/profile.go), and what
-- `net.ParseIP` accepts.
use podlaz.Common.{
  ℕ, ◌≡◌, refl, zero, suc, Bool, true, false, not, ◌&&◌, ◌||◌, [], ◌∷◌, Str, ◌==◌, leb, ltb,
  is_alnum, is_digit, is_empty, is_some, parse_ip4, split_on, all, length, if◌then◌else◌,
}

is_hex : ℕ → Bool
is_hex c = is_digit c || (leb b'a' c && leb c b'f') || (leb b'A' c && leb c b'F')

-- A run of hexadecimal digits: how many there are, and the rest.
hex_run : Str → ℕ × Str
hex_run [] = (0, [])
hex_run (c ∷ s) = let (n, rest) = hex_run s in if is_hex c then (suc n, rest) else (0, c ∷ s)

-- Behind a group and its colon: more must follow, and a second colon is the one ellipsis.
behind_colon : ℕ → Bool → (Bool → Str → Bool) → Str → Bool
behind_colon rounds ellipsis next [] = false
behind_colon rounds ellipsis next (c ∷ t) =
    if c == b':'
    then not ellipsis && (if is_empty t then not (rounds == 0) else next true t)
    else next ellipsis (c ∷ t)

-- Behind the digits of a group: the end, an IPv4 address in the place of the last two groups, or a
-- colon. An ellipsis stands for one group or more.
behind_group : ℕ → Bool → (Bool → Str → Bool) → Str → Str → Bool
unfolding behind_colon
behind_group rounds ellipsis next group [] = if rounds == 0 then not ellipsis else ellipsis
behind_group rounds ellipsis next group (c ∷ t) =
    if c == b'.'
    then is_some (parse_ip4 group) && (if ellipsis then leb 2 rounds else rounds == 1)
    else c == b':' && behind_colon rounds ellipsis next t

-- The loop of `parseIPv6` over the groups, of which so many may still come.
ip6_groups : ℕ → Bool → Str → Bool
unfolding hex_run behind_group
ip6_groups zero ellipsis s = is_empty s && not ellipsis
ip6_groups (suc rounds) ellipsis s =
    let (n, rest) = hex_run s in
    leb 1 n && leb n 4 && behind_group rounds ellipsis (ip6_groups rounds) s rest

is_ip6 : Str → Bool
unfolding ip6_groups
is_ip6 [] = false
is_ip6 (c ∷ []) = false
is_ip6 (c ∷ d ∷ s) =
    if c == b':' && d == b':'
    then is_empty s || ip6_groups 8 true s
    else ip6_groups 8 false (c ∷ d ∷ s)

-- Whether `net.ParseIP` gives an address.
unfoldable pub is_ip : Str → Bool
unfolding is_ip6 is_hex parse_ip4
is_ip s = is_some (parse_ip4 s) || is_ip6 s

is_label_rune : ℕ → Bool
is_label_rune c = is_alnum c || c == b'-'

ends_with : (ℕ → Bool) → Str → Bool
ends_with p [] = false
ends_with p (c ∷ []) = p c
ends_with p (c ∷ d ∷ s) = ends_with p (d ∷ s)

begins_with : (ℕ → Bool) → Str → Bool
begins_with p [] = false
begins_with p (c ∷ s) = p c

-- `hostnameLabelPattern`.
is_label : Str → Bool
unfolding is_label_rune begins_with ends_with
is_label s =
    begins_with is_alnum s && ends_with is_alnum s && all is_label_rune s && leb (length s) 63

-- `validHostname`. A text of more than 253 bytes that is not ASCII fails at a label.
unfoldable pub is_hostname : Str → Bool
unfolding is_label begins_with ends_with is_label_rune is_alnum split_on
is_hostname s =
    not (ltb 253 (length s) || begins_with (◌==◌ b'.') s || ends_with (◌==◌ b'.') s)
    && (let (label, labels) = split_on b'.' s in all is_label (label ∷ labels))

accepts : is_ip (b':' ∷ b':' ∷ b'1' ∷ []) && is_hostname (b'a' ∷ b'.' ∷ b'b' ∷ []) ≡ true
unfolding is_ip is_hostname
accepts = refl
