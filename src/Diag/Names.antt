-- ===== src/Diag/Names.antt =====
-- The names of layers, phases and classifications (internal/tundiag/model.go).
use podlaz.Common.{Str, text}

abbrev pub layer_session : Str
layer_session = text "session"

abbrev pub layer_server_bypass : Str
layer_server_bypass = text "server_bypass"

abbrev pub layer_route : Str
layer_route = text "route"

abbrev pub layer_dns : Str
layer_dns = text "dns"

abbrev pub layer_tcp : Str
layer_tcp = text "tcp"

abbrev pub layer_tls : Str
layer_tls = text "tls"

abbrev pub layer_https : Str
layer_https = text "https"

abbrev pub layer_doh : Str
layer_doh = text "doh"

abbrev pub layer_ipv6 : Str
layer_ipv6 = text "ipv6"

abbrev pub layer_pmtu : Str
layer_pmtu = text "pmtu"

abbrev pub phase_dns_resolution : Str
phase_dns_resolution = text "dns_resolution"

abbrev pub phase_route_lookup : Str
phase_route_lookup = text "route_lookup"

abbrev pub phase_tcp_connect : Str
phase_tcp_connect = text "tcp_connect"

abbrev pub phase_tls_handshake : Str
phase_tls_handshake = text "tls_handshake"

abbrev pub phase_http_request : Str
phase_http_request = text "http_request"

abbrev pub phase_http_response : Str
phase_http_response = text "http_response"

abbrev pub phase_http_body : Str
phase_http_body = text "http_body"

abbrev pub class_session_inactive : Str
class_session_inactive = text "session_inactive"

abbrev pub class_session_metadata_inconsistent : Str
class_session_metadata_inconsistent = text "session_metadata_inconsistent"

abbrev pub class_ownership_mismatch : Str
class_ownership_mismatch = text "ownership_mismatch"

abbrev pub class_server_bypass_failure : Str
class_server_bypass_failure = text "server_bypass_failure"

abbrev pub class_route_failure : Str
class_route_failure = text "route_failure"

abbrev pub class_policy_rule_failure : Str
class_policy_rule_failure = text "policy_rule_failure"

abbrev pub class_tun_address_conflict : Str
class_tun_address_conflict = text "tun_address_conflict"

abbrev pub class_tun_address_apply_failure : Str
class_tun_address_apply_failure = text "tun_address_apply_failure"

abbrev pub class_tun_address_verify_failure : Str
class_tun_address_verify_failure = text "tun_address_verify_failure"

abbrev pub class_dns_apply_failure : Str
class_dns_apply_failure = text "dns_apply_failure"

abbrev pub class_foreign_dns_conflict : Str
class_foreign_dns_conflict = text "foreign_dns_conflict"

abbrev pub class_resolved_link_not_ready : Str
class_resolved_link_not_ready = text "resolved_link_not_ready"

abbrev pub class_resolved_link_query_failure : Str
class_resolved_link_query_failure = text "resolved_link_query_failure"

abbrev pub class_system_resolver_failure : Str
class_system_resolver_failure = text "system_resolver_failure"

abbrev pub class_dns_udp_failure : Str
class_dns_udp_failure = text "dns_udp_failure"

abbrev pub class_dns_tcp_failure : Str
class_dns_tcp_failure = text "dns_tcp_failure"

abbrev pub class_dns_resolution_failure : Str
class_dns_resolution_failure = text "dns_resolution_failure"

abbrev pub class_dns_hijack_detected : Str
class_dns_hijack_detected = text "dns_hijack_detected"

abbrev pub class_tcp_443_failure : Str
class_tcp_443_failure = text "tcp_443_failure"

abbrev pub class_tls_failure : Str
class_tls_failure = text "tls_failure"

abbrev pub class_https_failure : Str
class_https_failure = text "https_failure"

abbrev pub class_https_partial_failure : Str
class_https_partial_failure = text "https_partial_failure"

abbrev pub class_doh_partial_failure : Str
class_doh_partial_failure = text "doh_partial_failure"

abbrev pub class_doh_failure : Str
class_doh_failure = text "doh_failure"

abbrev pub class_ipv6_not_present : Str
class_ipv6_not_present = text "ipv6_not_present"

abbrev pub class_ipv6_unusable : Str
class_ipv6_unusable = text "ipv6_unusable"

abbrev pub class_ipv6_leak : Str
class_ipv6_leak = text "ipv6_leak"

abbrev pub class_likely_pmtu_blackhole : Str
class_likely_pmtu_blackhole = text "likely_pmtu_blackhole"

abbrev pub class_timeout : Str
class_timeout = text "timeout"

abbrev pub class_cancelled : Str
class_cancelled = text "cancelled"

abbrev pub class_internal_diagnostic_error : Str
class_internal_diagnostic_error = text "internal_diagnostic_error"
