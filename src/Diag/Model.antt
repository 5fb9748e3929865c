-- ===== src/Diag/Model.antt =====
-- The report of the TUN diagnostics (internal/tundiag/model.go). A time and a duration are numbers;
-- a classification, a layer and a phase are their texts.
use podlaz.Common.{ℕ, Bool, true, false, List, Option, Str}

pub data OverallStatus : Type 0 where
  healthy degraded unhealthy unavailable : OverallStatus
  other_overall : Str → OverallStatus

pub data ProbeStatus : Type 0 where
  pass fail skipped : ProbeStatus
  other_status : Str → ProbeStatus

abbrev pub Classification : Type 0
Classification = Str

abbrev pub Layer : Type 0
Layer = Str

abbrev pub FailurePhase : Type 0
FailurePhase = Str

pub record RouteEvidence : Type 0 where
  pub destination : Str
  pub interface : Str
  pub gateway : Str
  pub table : Str
  pub rule : Str
  pub raw : Str

pub record DnsEvidence : Type 0 where
  pub server : Str
  pub name : Str
  pub type : ℕ
  pub response_code : ℕ
  pub addresses : List Str
  pub message_id : ℕ

pub record TlsEvidence : Type 0 where
  pub version : Str
  pub cipher : Str
  pub peer_subject : Str
  pub peer_issuer : Str
  pub handshake_ms : ℕ

pub record HttpEvidence : Type 0 where
  pub status_code : ℕ
  pub location : Str
  pub content_length : ℕ
  pub bytes_read : ℕ
  pub header_ms : ℕ
  pub body_ms : ℕ
  pub response_accepted : Bool
  pub failure_phase : Str

pub record Ipv6Evidence : Type 0 where
  pub state : Str
  pub uplink_addresses : List Str
  pub tun_addresses : List Str
  pub default_interface : Str
  pub route_table : Str

pub record CommandEvidence : Type 0 where
  pub command : Str
  pub stdout : Str
  pub stderr : Str
  pub exit_code : ℕ

pub record Evidence : Type 0 where
  pub endpoint : Str
  pub resolved_addresses : List Str
  pub route : Option RouteEvidence
  pub dns : Option DnsEvidence
  pub tls : Option TlsEvidence
  pub http : Option HttpEvidence
  pub ipv6 : Option Ipv6Evidence
  pub commands : List CommandEvidence
  pub policy_rules : List Str
  pub nftables_rules : List Str
  pub notes : List Str

pub record ProbeResult : Type 0 where
  pub id : Str
  pub layer : Layer
  pub status : ProbeStatus
  pub duration_ms : ℕ
  pub timeout_ms : ℕ
  pub target : Str
  pub classification : Classification
  pub failure_phase : FailurePhase
  pub error : Str
  pub dependency_reason : Str
  pub evidence : Evidence

pub record DiagSession : Type 0 where
  pub state : Str
  pub mode : Str
  pub profile_name : Str
  pub transaction_id : Str
  pub core_running : Bool
  pub interface : Str
  pub metadata_source : Str

pub record DiagNetwork : Type 0 where
  pub physical_interface : Str
  pub ssid : Str
  pub gateway : Str
  pub local_addresses : List Str
  pub tun_interface : Str
  pub tun_mtu : ℕ
  pub uplink_mtu : ℕ
  pub dns_servers : List Str
  pub ipv4_status : Str
  pub ipv6_status : Str
  pub server_endpoint : Str
  pub server_hostname : Str
  pub server_name : Str
  pub server_addresses : List Str
  pub doh_providers : List Str
  pub nftables_status : Str

pub record Report : Type 0 where
  pub schema_version : ℕ
  pub status : OverallStatus
  pub primary_classification : Classification
  pub generated_at : ℕ
  pub historical : Bool
  pub failure_phase : Str
  pub rollback_status : Str
  pub session : DiagSession
  pub network : DiagNetwork
  pub probes : List ProbeResult
  pub warnings : List Str
  pub errors : List Str
  pub report_path : Str

-- `HasFailures`.
unfoldable pub has_failures : Report → Bool
has_failures r = elim r.status [ unhealthy ↦ true | unavailable ↦ true | _ ↦ false ]
