-- ===== src/Tests/Diag.antt =====
-- A report with one provider that failed, and one that is healthy.
use podlaz.Common.{◌≡◌, ◌≢◌, refl, false, [], ◌∷◌, text, List, Str, arith, str_eq, str_lt}
use podlaz.Diag.Model.{
  Report, ProbeResult, ProbeStatus, DiagSession, DiagNetwork, other_overall, pass, fail, skipped,
  degraded, has_failures,
}
use podlaz.Diag.Names.{
  class_timeout, class_tls_failure, class_https_failure, class_https_partial_failure, layer_https,
  layer_dns,
}
use podlaz.Diag.Quorum.{no_evidence, is_pass, is_fail, apply_derived}
use podlaz.Diag.Verdict.{choose_primary, suppress_pmtu, has_any, finalize}
use podlaz.Diag.Soundness.{IsClean, finalize-healthy}

program : Unit {0}
unfolding str_eq str_lt is_pass is_fail apply_derived choose_primary suppress_pmtu has_any finalize
    has_failures
program = tt

abbrev probe : Str → Str → ProbeStatus → Str → ProbeResult
probe id layer status class = record {
  id = id;
  layer = layer;
  status = status;
  duration_ms = 0;
  timeout_ms = 0;
  target = [];
  classification = class;
  failure_phase = [];
  error = [];
  dependency_reason = [];
  evidence = no_evidence;
}

abbrev session : DiagSession
session = record {
  state = [];
  mode = [];
  profile_name = [];
  transaction_id = [];
  core_running = false;
  interface = [];
  metadata_source = [];
}

abbrev network : DiagNetwork
network = record {
  physical_interface = [];
  ssid = [];
  gateway = [];
  local_addresses = [];
  tun_interface = [];
  tun_mtu = 0;
  uplink_mtu = 0;
  dns_servers = [];
  ipv4_status = [];
  ipv6_status = [];
  server_endpoint = [];
  server_hostname = [];
  server_name = [];
  server_addresses = [];
  doh_providers = [];
  nftables_status = [];
}

abbrev report : List ProbeResult → Report
report ps = record {
  schema_version = 0;
  status = other_overall [];
  primary_classification = [];
  generated_at = 0;
  historical = false;
  failure_phase = [];
  rollback_status = [];
  session = session;
  network = network;
  probes = ps;
  warnings = [];
  errors = [];
  report_path = [];
}

abbrev good : Report
good = report (
    probe (text "https-google-small") layer_https pass []
    ∷ probe (text "dns") layer_dns skipped []
    ∷ [])

finalize-healthy_example : IsClean good
unfolding program
finalize-healthy_example = finalize-healthy good refl

abbrev partly_good : Report
partly_good = report (
    probe (text "https-google-small") layer_https pass []
    ∷ probe (text "https-cloudflare-small") layer_https fail class_https_failure
    ∷ [])

excused_failure :
    ((finalize partly_good).status ≡ degraded)
    × ((finalize partly_good).primary_classification ≡ class_https_partial_failure)
unfolding program
excused_failure = (refl, refl)

two_classes : (class_timeout ∷ class_tls_failure ∷ []) ≢ []
two_classes = λ e. ground arith
