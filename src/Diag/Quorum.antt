-- ===== src/Diag/Quorum.antt =====
-- What the classifier derives from the probes: the provider quorums and the corroborated path MTU
-- (internal/tundiag/classifier.go: `applyDerivedClassifications`).
use podlaz.Common.{
  ℕ, suc, Bool, true, false, not, ◌&&◌, List, [], ◌∷◌, ◌++◌, Option, none, some, Str, text, str_eq,
  is_some, any, leb, if◌then◌else◌,
}
use podlaz.Diag.Model.{
  Report, ProbeResult, ProbeStatus, pass, fail, skipped, other_status, Evidence, Layer,
  Classification,
}
use podlaz.Diag.Names.{
  class_timeout, class_tcp_443_failure, class_tls_failure, class_https_failure, class_doh_failure,
  class_https_partial_failure, class_doh_partial_failure, class_likely_pmtu_blackhole, layer_https,
  layer_doh, layer_pmtu, phase_tcp_connect, phase_tls_handshake, phase_http_request,
  phase_http_response, phase_http_body,
}

abbrev pub one_of : Str → List Str → Bool
one_of x names = any (str_eq x) names

unfoldable pub is_pass : ProbeStatus → Bool
is_pass pass = true
is_pass fail = false
is_pass skipped = false
is_pass (other_status _) = false

unfoldable pub is_fail : ProbeStatus → Bool
is_fail pass = false
is_fail fail = true
is_fail skipped = false
is_fail (other_status _) = false

-- `probeByID`.
unfoldable pub probe_by_id : List ProbeResult → Str → Option ProbeResult
probe_by_id [] id = none
probe_by_id (p ∷ ps) id = let rest = probe_by_id ps id in if str_eq p.id id then some p else rest

unfoldable pub contains_probe : List ProbeResult → Str → Bool
unfolding probe_by_id
contains_probe ps id = is_some (probe_by_id ps id)

unfoldable pub probe_passes : List ProbeResult → Str → Bool
unfolding probe_by_id is_pass
probe_passes ps id = elim (probe_by_id ps id) [ none ↦ false | some p ↦ is_pass p.status ]

-- `expectedProviderTimeout`.
unfoldable pub is_expected_timeout : ProbeResult → Bool
is_expected_timeout p =
    if str_eq p.id (text "tcp-443")
    then str_eq p.failure_phase phase_tcp_connect
    else if str_eq p.id (text "tls")
    then one_of p.failure_phase (phase_tcp_connect ∷ phase_tls_handshake ∷ [])
    else one_of p.id (
        text "https-cloudflare-small"
        ∷ text "https-google-small"
        ∷ text "doh-cloudflare"
        ∷ text "doh-google"
        ∷ [])
      && one_of p.failure_phase (
          phase_tcp_connect ∷ phase_tls_handshake ∷ phase_http_request ∷ phase_http_response
          ∷ phase_http_body ∷ [])

-- `expectedProviderFailure`.
unfoldable pub is_expected_failure : ProbeResult → Bool
unfolding is_expected_timeout
is_expected_failure p =
    if str_eq p.classification class_timeout
    then is_expected_timeout p
    else if str_eq p.id (text "tcp-443")
    then str_eq p.classification class_tcp_443_failure
    else if str_eq p.id (text "tls")
    then str_eq p.classification class_tls_failure
    else if one_of p.id (text "https-cloudflare-small" ∷ text "https-google-small" ∷ [])
    then str_eq p.classification class_https_failure
    else one_of p.id (text "doh-cloudflare" ∷ text "doh-google" ∷ [])
      && str_eq p.classification class_doh_failure

-- `firstExpectedProviderFailure`: the first of the probes that fails, if its failure is expected.
unfoldable pub first_expected_failure : List ProbeResult → List Str → Option ProbeResult
unfolding probe_by_id is_fail is_expected_failure
first_expected_failure ps [] = none
first_expected_failure ps (id ∷ ids) =
    let rest = first_expected_failure ps ids in
    elim (probe_by_id ps id) [
      | none ↦ rest
      | some p ↦
          if not (is_fail p.status) then rest else if is_expected_failure p then some p else none
    ]

abbrev pub no_evidence : Evidence
no_evidence = record {
  endpoint = [];
  resolved_addresses = [];
  route = none;
  dns = none;
  tls = none;
  http = none;
  ipv6 = none;
  commands = [];
  policy_rules = [];
  nftables_rules = [];
  notes = [];
}

-- A probe that the classifier adds.
abbrev pub derived_probe : Str → Layer → Classification → Str → List Str → ProbeResult
derived_probe id layer classification message notes = record {
  id = id;
  layer = layer;
  status = fail;
  duration_ms = 0;
  timeout_ms = 0;
  target = [];
  classification = classification;
  failure_phase = [];
  error = message;
  dependency_reason = [];
  evidence = record no_evidence { notes = notes };
}

-- `appendProviderAggregate`.
unfoldable pub append_provider_aggregate :
    Report → Str → Layer → Classification → ProbeResult → Report
unfolding contains_probe
append_provider_aggregate r id layer classification failure =
    if contains_probe r.probes id then r else record r {
      probes =
          r.probes
          ++ derived_probe id layer classification
              (text "provider "
                ++ failure.id
                ++ text " failed while an independent provider succeeded")
              ((text "root classification and failure phase preserved on probe " ++ failure.id)
                ∷ [])
            ∷ [];
    }

-- The failure that a quorum excuses: one of the second provider's where the first passes, or one of
-- the first provider's where the second passes.
unfoldable pub excused : List ProbeResult → Bool → List Str → Bool → List Str → Option ProbeResult
unfolding first_expected_failure
excused ps first_passes seconds second_passes firsts =
    let fallback = if second_passes then first_expected_failure ps firsts else none in
    if first_passes
    then elim (first_expected_failure ps seconds) [ some p ↦ some p | none ↦ fallback ]
    else fallback

unfoldable pub aggregate :
    Report → Str → Layer → Classification → Option ProbeResult → Report × List Str
unfolding append_provider_aggregate
aggregate r id layer classification none = (r, [])
aggregate r id layer classification (some failure) =
    (append_provider_aggregate r id layer classification failure, failure.id ∷ [])

-- `applyHTTPSProviderQuorum`: the report, and the probes whose failure is advisory.
unfoldable pub apply_https_quorum : Report → Report × List Str
unfolding probe_passes excused aggregate
apply_https_quorum r =
    aggregate r (text "https-provider-quorum") layer_https class_https_partial_failure (
      excused r.probes (probe_passes r.probes (text "https-cloudflare-small"))
        (text "https-google-small" ∷ []) (probe_passes r.probes (text "https-google-small"))
        (text "tcp-443" ∷ text "tls" ∷ text "https-cloudflare-small" ∷ []))

-- `applyDoHProviderQuorum`.
unfoldable pub apply_doh_quorum : Report → Report × List Str
unfolding probe_passes excused aggregate
apply_doh_quorum r = aggregate r (text "doh-provider-quorum") layer_doh class_doh_partial_failure (
    excused r.probes (probe_passes r.probes (text "doh-cloudflare")) (text "doh-google" ∷ [])
      (probe_passes r.probes (text "doh-google")) (text "doh-cloudflare" ∷ []))

-- `isPMTUTransportFailure`.
unfoldable pub is_pmtu_transport_failure : ProbeResult → Bool
is_pmtu_transport_failure p = elim p.evidence.http [
  | none ↦ false
  | some h ↦
      h.response_accepted
      && one_of h.failure_phase (text "body_timeout" ∷ text "body_transport" ∷ [])
]

unfoldable pub count : (ProbeResult → Bool) → List ProbeResult → ℕ
count p [] = 0
count p (x ∷ xs) = let rest = count p xs in if p x then suc rest else rest

-- The report with the corroborating probe, if two transfers stalled behind a small success.
unfoldable pub corroborate : Report → Report
unfolding is_pass is_fail is_pmtu_transport_failure count contains_probe
corroborate r =
    if any (λ p. str_eq p.layer layer_https && is_pass p.status) r.probes
      && leb 2 (
          count (λ p. str_eq p.layer layer_pmtu && is_fail p.status && is_pmtu_transport_failure p)
            r.probes)
      && not (contains_probe r.probes (text "pmtu-corroboration"))
    then record r {
      probes =
          r.probes
          ++ derived_probe (text "pmtu-corroboration") layer_pmtu class_likely_pmtu_blackhole
              (text
                "small HTTPS succeeded while two independent bounded transfers stalled after valid HTTP responses")
              []
            ∷ [];
    }
    else r

-- `applyDerivedClassifications`.
unfoldable pub apply_derived : Report → Report × List Str
unfolding apply_https_quorum apply_doh_quorum corroborate
apply_derived r =
    let (r1, https) = apply_https_quorum r in
    let (r2, doh) = apply_doh_quorum r1 in (corroborate r2, https ++ doh)
