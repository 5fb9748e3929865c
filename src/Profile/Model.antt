-- ===== src/Profile/Model.antt =====
-- A normalized VPN profile (internal/profile/profile.go).
use podlaz.Common.{ℕ, Str, text, ℕ_discrete, Bool, equal_fold, trim_space, if◌then◌else◌, []}

pub data Engine : Type 0 where
  xray amnezia_wg no_engine : Engine
  other_engine : Str → Engine

pub data SourceType : Type 0 where
  manual subscription imported_file imported_uri no_source : SourceType
  other_source : Str → SourceType

abbrev pub protocol_xray_json : Str
protocol_xray_json = text "xray-json"

pub record Profile : Type 0 where
  pub id : Str
  pub name : Str
  pub source : SourceType
  pub engine : Engine
  pub server : Str
  pub port : ℕ
  pub protocol : Str
  pub user_identity : Str
  pub transport : Str
  pub security : Str
  pub encryption : Str
  pub flow : Str
  pub server_name : Str
  pub alpn : Str
  pub fingerprint : Str
  pub path : Str
  pub host_header : Str
  pub service_name : Str
  pub reality_public_key : Str
  pub reality_short_id : Str
  pub reality_spider_x : Str

unfoldable pub Profile-discrete : Discrete Profile
unfolding ℕ_discrete
Profile-discrete = hlevel ℕ_discrete

abbrev pub id_of : Profile → Str
id_of p = p.id

-- `IsProviderXrayConfigProfile`.
unfoldable pub is_provider_config : Profile → Bool
is_provider_config p = equal_fold (trim_space p.protocol) protocol_xray_json

-- `ProviderXrayConfigJSON`.
unfoldable pub provider_config_json : Profile → Str
unfolding is_provider_config
provider_config_json p = if is_provider_config p then p.reality_spider_x else []
