-- ===== src/Diag/Verdict.antt =====
-- The verdict of a report (internal/tundiag/classifier.go: `Finalize`, `choosePrimary`), up to the
-- masking of its texts.
use podlaz.Common.{
  ℕ, Bool, false, not, ◌&&◌, ◌||◌, List, [], ◌∷◌, ◌==◌, Str, str_eq, str_lt, any, is_empty,
  if◌then◌else◌,
}
use podlaz.Diag.Model.{
  Report, ProbeResult, OverallStatus, Classification, pass, fail, skipped, other_status, healthy,
  degraded, unhealthy, unavailable,
}
use podlaz.Diag.Names.{
  layer_pmtu, class_cancelled, class_dns_apply_failure, class_dns_hijack_detected,
  class_dns_resolution_failure, class_dns_tcp_failure, class_dns_udp_failure, class_doh_failure,
  class_doh_partial_failure, class_foreign_dns_conflict, class_https_failure,
  class_https_partial_failure, class_internal_diagnostic_error, class_ipv6_leak,
  class_ipv6_not_present, class_ipv6_unusable, class_likely_pmtu_blackhole,
  class_ownership_mismatch, class_policy_rule_failure, class_route_failure,
  class_server_bypass_failure, class_session_inactive, class_session_metadata_inconsistent,
  class_tcp_443_failure, class_timeout, class_tls_failure, class_tun_address_apply_failure,
}
use podlaz.Diag.Quorum.{one_of, is_fail, apply_derived}

abbrev pub schema_version : ℕ
schema_version = 1

abbrev pub primary_classification_priority : List Classification
primary_classification_priority =
    class_session_inactive ∷ class_session_metadata_inconsistent ∷ class_tun_address_apply_failure
    ∷ class_ownership_mismatch ∷ class_server_bypass_failure ∷ class_policy_rule_failure
    ∷ class_route_failure ∷ class_foreign_dns_conflict ∷ class_dns_apply_failure
    ∷ class_dns_udp_failure ∷ class_dns_tcp_failure ∷ class_dns_resolution_failure
    ∷ class_dns_hijack_detected ∷ class_tcp_443_failure ∷ class_tls_failure ∷ class_https_failure
    ∷ class_doh_failure ∷ class_ipv6_leak ∷ class_ipv6_unusable ∷ class_likely_pmtu_blackhole
    ∷ class_timeout ∷ class_cancelled ∷ class_internal_diagnostic_error
    ∷ class_https_partial_failure ∷ class_doh_partial_failure ∷ class_ipv6_not_present ∷ []

abbrev pub pmtu_suppressors : List Classification
pmtu_suppressors =
    class_server_bypass_failure ∷ class_route_failure ∷ class_policy_rule_failure
    ∷ class_dns_apply_failure ∷ class_foreign_dns_conflict ∷ class_dns_udp_failure
    ∷ class_dns_tcp_failure ∷ class_dns_resolution_failure ∷ class_dns_hijack_detected
    ∷ class_tls_failure ∷ []

-- `isAdvisoryClassification`.
unfoldable pub is_advisory : Classification → Bool
is_advisory c =
    one_of c (class_https_partial_failure ∷ class_doh_partial_failure ∷ class_ipv6_not_present ∷ [])

-- Evidence on the path MTU that is not the conclusion from it.
unfoldable pub is_pmtu_evidence : ProbeResult → Bool
is_pmtu_evidence p =
    str_eq p.layer layer_pmtu && not (str_eq p.classification class_likely_pmtu_blackhole)

unfoldable pub is_present : List Str → ProbeResult → Bool
unfolding is_pmtu_evidence
is_present advisory p =
    not (is_empty p.classification) && not (is_pmtu_evidence p) && not (one_of p.id advisory)

unfoldable pub is_excused : List Str → ProbeResult → Bool
unfolding is_pmtu_evidence is_advisory
is_excused advisory p = one_of p.id advisory || is_pmtu_evidence p || is_advisory p.classification

unfoldable pub degrades : List Str → ProbeResult → Bool
unfolding is_fail is_excused
degrades advisory p = is_fail p.status && is_excused advisory p

is_interrupted : ProbeResult → Bool
is_interrupted p = str_eq p.classification class_cancelled || str_eq p.classification class_timeout

unfoldable pub fails_report : List Str → ProbeResult → Bool
unfolding is_excused is_interrupted
fails_report advisory p = elim p.status [
  | fail ↦ not (is_excused advisory p)
  | skipped ↦ is_interrupted p
  | pass ↦ false
  | other_status _ ↦ false
]

-- The set of classifications that count.
unfoldable pub present : List Str → List ProbeResult → List Classification
unfolding is_present
present advisory [] = []
present advisory (p ∷ ps) =
    let rest = present advisory ps in
    if is_present advisory p then p.classification ∷ rest else rest

-- `delete`.
unfoldable pub remove_class : Classification → List Classification → List Classification
remove_class c [] = []
remove_class c (x ∷ xs) = let rest = remove_class c xs in if str_eq c x then rest else x ∷ rest

-- `hasAnyClassification`.
unfoldable pub has_any : List Classification → List Classification → Bool
has_any xs candidates = any (λ c. one_of c xs) candidates

unfoldable pub suppress_pmtu : List Classification → List Classification
unfolding has_any remove_class
suppress_pmtu xs =
    if one_of class_likely_pmtu_blackhole xs && has_any xs pmtu_suppressors
    then remove_class class_likely_pmtu_blackhole xs
    else xs

-- The least text, the first of the sorted ones.
unfoldable pub least : Classification → List Classification → Classification
least c [] = c
least c (x ∷ xs) = least (if str_lt x c then x else c) xs

unfoldable pub choose_from : List Classification → List Classification → Classification
unfolding least
choose_from [] [] = []
choose_from [] (x ∷ xs) = least x xs
choose_from (c ∷ cs) xs = let rest = choose_from cs xs in if one_of c xs then c else rest

-- `choosePrimary`.
unfoldable pub choose_primary : List Classification → Classification
unfolding choose_from
choose_primary xs = choose_from primary_classification_priority xs

unfoldable pub verdict : Classification → Bool → Bool → OverallStatus
verdict primary fails degraded_only =
    if str_eq primary class_session_inactive
    then unavailable
    else if fails
    then unhealthy
    else if degraded_only
    then degraded
    else healthy

unfoldable pub conclude : List Str → Report → Report
unfolding present suppress_pmtu choose_primary fails_report degrades verdict
conclude advisory r =
    let primary = choose_primary (suppress_pmtu (present advisory r.probes)) in
    record r {
      schema_version = if r.schema_version == 0 then schema_version else r.schema_version;
      primary_classification = primary;
      status =
          verdict primary (any (fails_report advisory) r.probes || not (is_empty r.errors))
            (any (degrades advisory) r.probes || not (is_empty r.warnings));
    }

-- `Finalize`.
unfoldable pub finalize : Report → Report
unfolding apply_derived conclude
finalize r = let (derived, advisory) = apply_derived r in conclude advisory derived
