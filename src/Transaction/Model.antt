-- ===== src/Transaction/Model.antt =====
-- The record that is written before a privileged change of the host (internal/state/transaction.go).
-- A time is a number of nanoseconds; the zero time is 0.
use podlaz.Common.{ℕ, Bool, not, ◌||◌, List, Str, text, is_empty}

abbrev pub transaction_schema_version : Str
transaction_schema_version = text "podlaz.transaction.v1"

abbrev pub transaction_owner : Str
transaction_owner = text "podlaz"

pub data TransactionState : Type 0 where
  planned applying applied verifying committed rolling_back rolled_back failed : TransactionState
  other_state : Str → TransactionState

unfoldable pub state_text : TransactionState → Str
state_text planned = text "planned"
state_text applying = text "applying"
state_text applied = text "applied"
state_text verifying = text "verifying"
state_text committed = text "committed"
state_text rolling_back = text "rolling_back"
state_text rolled_back = text "rolled_back"
state_text failed = text "failed"
state_text (other_state s) = s

pub record SnapshotMetadata : Type 0 where
  pub captured_at : ℕ
  pub source : Str
  pub summary : List Str

pub record TunDesiredState : Type 0 where
  pub interface_name : Str
  pub mtu : ℕ
  pub owner : Str

pub record TunAddressDesiredState : Type 0 where
  pub family : Str
  pub interface_name : Str
  pub cidr : Str
  pub scope : Str
  pub link_index : ℕ
  pub link_kind : Str
  pub appeared_after_core : Bool
  pub owner : Str

pub record RoutePlan : Type 0 where
  pub kind : Str
  pub table : Str
  pub cidr : Str
  pub via : Str
  pub dev : Str
  pub priority : ℕ
  pub owner : Str
  pub operation : Str

pub record DnsPlan : Type 0 where
  pub backend : Str
  pub link : Str
  pub servers : List Str
  pub search_domains : List Str
  pub owner : Str

pub record NftChainPlan : Type 0 where
  pub name : Str
  pub hook : Str
  pub type : Str
  pub priority : ℕ
  pub policy : Str
  pub rules : List Str
  pub owner : Str

pub record NftPlan : Type 0 where
  pub family : Str
  pub table : Str
  pub chains : List NftChainPlan
  pub owner : Str

pub record CorePlan : Type 0 where
  pub runtime_config_path : Str
  pub process_label : Str
  pub owner : Str

pub record PlannedStep : Type 0 where
  pub kind : Str
  pub target : Str
  pub description : Str
  pub owner : Str

pub record AppliedStep : Type 0 where
  pub kind : Str
  pub target : Str
  pub description : Str
  pub applied_at : ℕ
  pub owner : Str

pub record DesiredPlan : Type 0 where
  pub plan_id : Str
  pub tun : TunDesiredState
  pub tun_address : TunAddressDesiredState
  pub egress_mark : ℕ
  pub routes : List RoutePlan
  pub dns : DnsPlan
  pub nft : NftPlan
  pub core : CorePlan
  pub steps : List PlannedStep

pub record TunRollback : Type 0 where
  pub interface_name : Str
  pub owner : Str

pub record TunAddressRollback : Type 0 where
  pub family : Str
  pub interface_name : Str
  pub cidr : Str
  pub scope : Str
  pub link_index : ℕ
  pub link_kind : Str
  pub appeared_after_core : Bool
  pub owner : Str

pub record RouteRollback : Type 0 where
  pub table : Str
  pub cidr : Str
  pub via : Str
  pub dev : Str
  pub owner : Str

pub record PolicyRuleRollback : Type 0 where
  pub priority : ℕ
  pub from : Str
  pub to : Str
  pub table : Str
  pub mark : Str
  pub owner : Str

pub record DnsRollback : Type 0 where
  pub backend : Str
  pub link : Str
  pub previous : List Str
  pub search_domains : List Str
  pub owner : Str

pub record NftablesRollback : Type 0 where
  pub family : Str
  pub table : Str
  pub chain : Str
  pub owner : Str

pub record GeneratedConfigRollback : Type 0 where
  pub path : Str
  pub owner : Str

pub record ChildProcessRollback : Type 0 where
  pub pid : ℕ
  pub pid_file : Str
  pub label : Str
  pub config_ref : Str
  pub start_time : Str
  pub owner : Str

pub record RollbackMetadata : Type 0 where
  pub tun : List TunRollback
  pub tun_addresses : List TunAddressRollback
  pub routes : List RouteRollback
  pub policy_rules : List PolicyRuleRollback
  pub dns : List DnsRollback
  pub nftables : List NftablesRollback
  pub generated_configs : List GeneratedConfigRollback
  pub child_processes : List ChildProcessRollback

pub record HealthResult : Type 0 where
  pub status : Str
  pub checked_at : ℕ
  pub message : Str

pub record Transaction : Type 0 where
  pub schema_version : Str
  pub owner : Str
  pub id : Str
  pub profile_id : Str
  pub mode : Str
  pub state : TransactionState
  pub created_at : ℕ
  pub updated_at : ℕ
  pub before_snapshot : SnapshotMetadata
  pub desired_plan : DesiredPlan
  pub applied_steps : List AppliedStep
  pub rollback : RollbackMetadata
  pub health : HealthResult
  pub failure_reason : Str
  pub labels : List (Str × Str)

-- `Available`.
unfoldable pub is_rollback_available : RollbackMetadata → Bool
is_rollback_available m =
    not (is_empty m.tun)
    || not (is_empty m.tun_addresses)
    || not (is_empty m.routes)
    || not (is_empty m.policy_rules)
    || not (is_empty m.dns)
    || not (is_empty m.nftables)
    || not (is_empty m.generated_configs)
    || not (is_empty m.child_processes)
