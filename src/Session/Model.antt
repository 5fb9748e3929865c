-- ===== src/Session/Model.antt =====
-- The Network Session record, its legacy form and the errors of its store
-- (internal/daemon/network_session_state.go, network_session_continuation.go).
use podlaz.Common.{ℕ, Bool, List, Option, Str, text, str_eq, ◌&&◌, ◌==◌, ℕ_discrete, same}
use podlaz.Api.{ConnectRequest, ConnectRequest-discrete, RequestError}
use podlaz.Files.{FileStep}

abbrev pub state_schema_version : Str
state_schema_version = text "podlaz.network-session-state.v1"

abbrev pub continuation_schema_version : Str
continuation_schema_version = text "podlaz.network-session-continuation.v1"

abbrev pub state_owner : Str
state_owner = text "podlaz"

-- 64 * 1024.
abbrev pub max_state_bytes : ℕ
max_state_bytes = 65536

-- 0o600.
abbrev pub private_mode : ℕ
private_mode = 384

-- `^uint64(0)`.
abbrev pub max_epoch : ℕ
max_epoch = 18446744073709551615

abbrev pub composition_version : ℕ
composition_version = 1

abbrev pub marked_composition_version : ℕ
marked_composition_version = 2

pub data Intent : Type 0 where
  resume disconnect terminal : Intent
  other_intent : Str → Intent

unfoldable pub Intent-discrete : Discrete Intent
unfolding ℕ_discrete
Intent-discrete = hlevel ℕ_discrete

pub data ProtectionState : Type 0 where
  unarmed arming armed removing : ProtectionState
  other_protection : Str → ProtectionState

pub record Protection : Type 0 where
  pub state : ProtectionState
  pub version : ℕ
  pub family : Str
  pub table : Str
  pub tun_interface : Str
  pub bootstrap_ipv4 : List Str
  pub previous_bootstrap_ipv4 : List Str
  pub egress_marks : List ℕ
  pub previous_egress_marks : List ℕ

pub record Replacement : Type 0 where
  pub previous_request : ConnectRequest
  pub previous_protection : Option Protection

pub record SessionState : Type 0 where
  pub schema_version : Str
  pub owner : Str
  pub boot_id : Str
  pub session_id : Str
  pub recovery_epoch : ℕ
  pub intent : Intent
  pub request : ConnectRequest
  pub protection : Option Protection
  pub replacement : Option Replacement

pub record Continuation : Type 0 where
  pub schema_version : Str
  pub owner : Str
  pub boot_id : Str
  pub request : ConnectRequest

pub data ProtectionError : Type 0 where
  unsupported_protection_state bad_version bad_family bad_table bad_interface : ProtectionError
  no_endpoint bad_endpoint endpoint_not_normalized duplicate_endpoint : ProtectionError
  no_mark zero_mark duplicate_mark marks_not_normalized : ProtectionError
  endpoint_with_marks marked_with_endpoints unsupported_version : ProtectionError
  previous_outside_arming : ProtectionError

pub data Error : Type 0 where
  bad_request : RequestError → Error
  bad_protection : ProtectionError → Error
  unsupported_schema unsupported_owner empty_boot_id bad_session_id unsupported_intent : Error
  replacement_needs_replace_handoff replacement_without_previous protection_identity_changed : Error
  bad_previous_request : RequestError → Error
  bad_previous_protection : ProtectionError → Error
  open_failed stat_failed bad_permissions too_large read_failed : Error
  header_undecodable state_undecodable continuation_undecodable : Error
  boot_id_unreadable entropy_unreadable : Error
  create_directory_failed remove_failed remove_sync_failed : Error
  write_failed : FileStep → Error
  transition_in_progress replace_needs_tun change_without_handoff : Error
  epoch_exhausted no_session uncommitted_protection protection_held : Error
  intent_change_refused : Error
  joined : Error → Error → Error

-- `networkSessionRequestsEquivalentIgnoringHandoff`.
unfoldable pub equivalent_ignoring_handoff : ConnectRequest → ConnectRequest → Bool
equivalent_ignoring_handoff a b =
    same ConnectRequest-discrete (record a { handoff = text "" }) (record b { handoff = text "" })

-- `samePrivacyEnvelopeIdentity`.
unfoldable pub same_envelope_identity : Protection → Protection → Bool
same_envelope_identity a b =
    a.version == b.version
    && str_eq a.family b.family
    && str_eq a.table b.table
    && str_eq a.tun_interface b.tun_interface
