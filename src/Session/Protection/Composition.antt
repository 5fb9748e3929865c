-- ===== src/Session/Protection/Composition.antt =====
-- What a validated Privacy Envelope holds.
use podlaz.Common.{◌≡◌, ◌≢◌, ◌⊎◌, true, [], ok, arith, text, str_eq_iff}
use podlaz.Session.Model.{Protection, arming, composition_version, marked_composition_version}
use podlaz.Session.Protection.{
  is_supported_state, is_arming, is_envelope_table, is_interface_name, validate_protection,
  validate_composition, validate_previous_endpoints, validate_previous_marks,
}
use podlaz.Session.Protection.Endpoints.{IsEndpointSet, validate_bootstrap_ipv4-IsEndpointSet}
use podlaz.Session.Protection.Marks.{IsMarkSet, validate_egress_marks-IsMarkSet}

-- Endpoints and no marks, or marks and no endpoints.
abbrev pub IsEndpointBased : Protection → Type 0
IsEndpointBased p =
    (p.version ≡ composition_version)
    × IsEndpointSet p.bootstrap_ipv4
    × (p.egress_marks ≡ [])
    × (p.previous_egress_marks ≡ [])

abbrev pub IsMarkBased : Protection → Type 0
IsMarkBased p =
    (p.version ≡ marked_composition_version)
    × IsMarkSet p.egress_marks
    × (p.bootstrap_ipv4 ≡ [])
    × (p.previous_bootstrap_ipv4 ≡ [])

pub record IsProtection (p : Protection) : Type 0 where
  pub supported : is_supported_state p.state ≡ true
  pub family : p.family ≡ text "inet"
  pub table : is_envelope_table p.table ≡ true
  pub interface : is_interface_name p.tun_interface ≡ true
  pub composition : IsEndpointBased p ⊎ IsMarkBased p
  pub previous_endpoints :
      p.previous_bootstrap_ipv4 ≢ [] → (p.state ≡ arming) × IsEndpointSet p.previous_bootstrap_ipv4
  pub previous_marks :
      p.previous_egress_marks ≢ [] → (p.state ≡ arming) × IsMarkSet p.previous_egress_marks

validate_composition_sound :
    (p : Protection) → validate_composition p ≡ ok tt → IsEndpointBased p ⊎ IsMarkBased p
unfolding validate_composition
validate_composition_sound p h = ground (
  arith,
  validate_bootstrap_ipv4-IsEndpointSet p.bootstrap_ipv4,
  (validate_egress_marks-IsMarkSet p.egress_marks).0,
)

validate_previous_endpoints_sound :
    (p : Protection)
    → validate_previous_endpoints p ≡ ok tt
    → p.previous_bootstrap_ipv4 ≢ []
    → (p.state ≡ arming) × IsEndpointSet p.previous_bootstrap_ipv4
unfolding validate_previous_endpoints is_arming
validate_previous_endpoints_sound p h ne =
    ground (arith, validate_bootstrap_ipv4-IsEndpointSet p.previous_bootstrap_ipv4)

validate_previous_marks_sound :
    (p : Protection)
    → validate_previous_marks p ≡ ok tt
    → p.previous_egress_marks ≢ []
    → (p.state ≡ arming) × IsMarkSet p.previous_egress_marks
unfolding validate_previous_marks is_arming
validate_previous_marks_sound p h ne =
    ground (arith, (validate_egress_marks-IsMarkSet p.previous_egress_marks).0)

-- A protection that passes validation has a supported state, the family inet, a generated table
-- name and a legal interface name. It allows endpoints or marks, never both, each list non-empty
-- and free of duplicates, and carries a previous list only while it is arming.
pub validate_protection-IsProtection :
    (p : Protection) → validate_protection p ≡ ok tt → IsProtection p
unfolding validate_protection
validate_protection-IsProtection p h = record {
  supported = ground arith;
  family = ground (arith, str_eq_iff p.family (text "inet"));
  table = ground arith;
  interface = ground arith;
  composition = validate_composition_sound p (ground arith);
  previous_endpoints = validate_previous_endpoints_sound p (ground arith);
  previous_marks = validate_previous_marks_sound p (ground arith);
}
