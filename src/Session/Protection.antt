-- ===== src/Session/Protection.antt =====
-- The validation of a Privacy Envelope's composition
-- (internal/daemon/network_session_state.go, `validateNetworkSessionProtection` and below).
use podlaz.Common.{
  ℕ, zero, suc, Bool, true, false, not, ◌&&◌, ◌||◌, List, [], ◌∷◌, Option, none, some, ok, err,
  Check, ◌>>◌, fail_if, Str, text, str_eq, trim_space, cut_prefix, is_digit, is_lower_hex, is_alnum,
  length, is_empty, all, any, ltb, leb, ◌==◌, if◌then◌else◌, Ip4, parse_ip4, show_ip4,
}
use podlaz.Session.Model.{
  Protection, ProtectionState, ProtectionError, unarmed, arming, armed, removing, other_protection,
  composition_version, marked_composition_version,
}
pub mod Endpoints
pub mod Marks
pub mod Composition
use podlaz.Session.Model

unfoldable pub is_supported_state : ProtectionState → Bool
is_supported_state (other_protection _) = false
is_supported_state unarmed = true
is_supported_state arming = true
is_supported_state armed = true
is_supported_state removing = true

unfoldable pub is_arming : ProtectionState → Bool
is_arming arming = true
is_arming unarmed = false
is_arming armed = false
is_arming removing = false
is_arming (other_protection _) = false

-- Twelve hexadecimal digits, then nothing or `_` and a number below 1000 with no leading zero.
suffix_digits : Str → Bool
suffix_digits [] = false
suffix_digits (d ∷ ds) = leb b'1' d && leb d b'9' && all is_digit ds && leb (length ds) 2

table_suffix : ℕ → Str → Bool
table_suffix zero [] = true
table_suffix zero (c ∷ s) = c == b'_' && suffix_digits s
table_suffix (suc n) [] = false
table_suffix (suc n) (c ∷ s) = is_lower_hex c && table_suffix n s

table_rest : Option Str → Bool
table_rest none = false
table_rest (some s) = table_suffix 12 s

-- `privacyEnvelopeTablePattern`.
unfoldable pub is_envelope_table : Str → Bool
unfolding suffix_digits table_suffix table_rest cut_prefix is_digit is_lower_hex
is_envelope_table s = table_rest (cut_prefix (text "podlaz_pe_") s)

-- `networkSessionInterfaceRegex`, on a text that is not empty.
interface_rune : ℕ → Bool
interface_rune c = is_alnum c || c == b'_' || c == b'.' || c == b':' || c == b'-'

-- `validateNetworkSessionInterface`. A text that the pattern takes is ASCII, so its code points
-- are its bytes.
unfoldable pub is_interface_name : Str → Bool
unfolding interface_rune is_alnum str_eq
is_interface_name name =
    not (is_empty name)
    && leb (length name) 15
    && not (str_eq name (text "."))
    && not (str_eq name (text ".."))
    && all interface_rune name

-- One round of the loop of `validateBootstrapIPv4`. An IPv6 text that maps an IPv4 address is
-- refused too, by the source as not normalized and here as no IPv4 address.
check_parsed : List Str → Str → Option Ip4 → Check ProtectionError
check_parsed seen raw none = err Model.bad_endpoint
check_parsed seen raw (some ip) =
    if not (str_eq (show_ip4 ip) raw)
    then err Model.endpoint_not_normalized
    else fail_if (any (str_eq (show_ip4 ip)) seen) Model.duplicate_endpoint

check_endpoint : List Str → Str → Check ProtectionError
check_endpoint seen raw = check_parsed seen raw (parse_ip4 (trim_space raw))

endpoints_from : List Str → List Str → Check ProtectionError
endpoints_from seen [] = ok tt
endpoints_from seen (raw ∷ values) =
    let rest = endpoints_from (raw ∷ seen) values in check_endpoint seen raw >> rest

unfoldable pub validate_bootstrap_ipv4 : List Str → Check ProtectionError
unfolding endpoints_from check_endpoint check_parsed parse_ip4 show_ip4 trim_space str_eq
validate_bootstrap_ipv4 values = do
  fail_if (is_empty values) Model.no_endpoint
  endpoints_from [] values

-- The loop of `validateEgressMarks`; `first` is `i == 0`.
marks_from : Bool → ℕ → List ℕ → List ℕ → Check ProtectionError
marks_from first previous seen [] = ok tt
marks_from first previous seen (value ∷ values) =
    let rest = marks_from false value (value ∷ seen) values in
    do
      fail_if (value == 0) Model.zero_mark
      fail_if (any (◌==◌ value) seen) Model.duplicate_mark
      fail_if (not first && leb value previous) Model.marks_not_normalized
      rest

unfoldable pub validate_egress_marks : List ℕ → Check ProtectionError
unfolding marks_from
validate_egress_marks values = do
  fail_if (is_empty values) Model.no_mark
  marks_from true 0 [] values

-- The switch on the composition's version.
unfoldable pub validate_composition : Protection → Check ProtectionError
validate_composition p =
    if p.version == composition_version
    then (do
      validate_bootstrap_ipv4 p.bootstrap_ipv4
      fail_if (not (is_empty p.egress_marks) || not (is_empty p.previous_egress_marks))
          Model.endpoint_with_marks)
    else if p.version == marked_composition_version
    then (do
      fail_if (not (is_empty p.bootstrap_ipv4) || not (is_empty p.previous_bootstrap_ipv4))
          Model.marked_with_endpoints
      validate_egress_marks p.egress_marks)
    else err Model.unsupported_version

validate_previous_endpoints : Protection → Check ProtectionError
validate_previous_endpoints p =
    if is_empty p.previous_bootstrap_ipv4
    then ok tt
    else fail_if (not (is_arming p.state)) Model.previous_outside_arming
      >> validate_bootstrap_ipv4 p.previous_bootstrap_ipv4

validate_previous_marks : Protection → Check ProtectionError
validate_previous_marks p =
    if is_empty p.previous_egress_marks
    then ok tt
    else fail_if (not (is_arming p.state)) Model.previous_outside_arming
      >> validate_egress_marks p.previous_egress_marks

-- `validateNetworkSessionProtection`. A version is an `int` of the source; one below 1 is refused,
-- so 0 stands for all of these.
unfoldable pub validate_protection : Protection → Check ProtectionError
unfolding validate_composition validate_previous_endpoints validate_previous_marks
    is_supported_state
validate_protection p = do
  fail_if (not (is_supported_state p.state)) Model.unsupported_protection_state
  fail_if (p.version == 0) Model.bad_version
  fail_if (not (str_eq p.family (text "inet"))) Model.bad_family
  fail_if (not (is_envelope_table p.table)) Model.bad_table
  fail_if (not (is_interface_name p.tun_interface)) Model.bad_interface
  validate_composition p
  validate_previous_endpoints p
  validate_previous_marks p
