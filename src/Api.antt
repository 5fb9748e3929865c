-- ===== src/Api.antt =====
-- The daemon's local interface (internal/api/lifecycle.go): requests, handoff policies and their
-- validation.
pub mod Laws
use podlaz.Common.{
  ℕ, ◌≡◌, Bool, ◌||◌, List, [], ◌∷◌, ok, err, Check, ◌>>◌, fail_if, Str, text, str_eq, trim_space,
  to_lower, equal_fold, is_empty, ◌==◌, if◌then◌else◌, ℕ_discrete,
}

pub record ProfileSnapshot : Type 0 where
  pub id : Str
  pub name : Str
  pub source : Str
  pub engine : Str
  pub server : Str
  pub port : ℕ
  pub protocol : Str
  pub user_identity : Str
  pub transport : Str
  pub security : Str
  pub encryption : Str
  pub flow : Str
  pub server_name : Str
  pub alpn : Str
  pub fingerprint : Str
  pub path : Str
  pub host_header : Str
  pub service_name : Str
  pub reality_public_key : Str
  pub reality_short_id : Str
  pub reality_spider_x : Str

pub record ConnectRequest : Type 0 where
  pub mode : Str
  pub profile : ProfileSnapshot
  pub handoff : Str

-- `reflect.DeepEqual` on requests.
unfoldable pub ConnectRequest-discrete : Discrete ConnectRequest
unfolding ℕ_discrete
ConnectRequest-discrete = hlevel ℕ_discrete

abbrev pub handoff_block : Str
handoff_block = text "block"

abbrev pub handoff_ask : Str
handoff_ask = text "ask"

abbrev pub handoff_stop_known : Str
handoff_stop_known = text "stop-known"

abbrev pub handoff_replace_podlaz : Str
handoff_replace_podlaz = text "replace-podlaz"

abbrev pub protocol_xray_json : Str
protocol_xray_json = text "xray-json"

-- The policies that the switches name; every other text falls to their default.
unfoldable pub normalize_handoff_policy : Str → Str
unfolding trim_space to_lower str_eq
normalize_handoff_policy policy =
    let p = to_lower (trim_space policy) in if is_empty p then handoff_block else p

unfoldable pub is_known_policy : Str → Bool
unfolding str_eq
is_known_policy p =
    str_eq p handoff_block
    || str_eq p handoff_ask
    || str_eq p handoff_stop_known
    || str_eq p handoff_replace_podlaz

pub data RequestError : Type 0 where
  missing_mode missing_profile_id missing_profile_name missing_profile_protocol : RequestError
  missing_profile_reality_spider_x missing_profile_server missing_profile_port : RequestError
  unsupported_handoff : Str → RequestError

unfoldable pub validate_handoff_policy : Str → Check RequestError
validate_handoff_policy policy =
    if is_known_policy (normalize_handoff_policy policy)
    then ok tt
    else err (unsupported_handoff policy)

abbrev pub is_provider_config : ConnectRequest → Bool
is_provider_config r = equal_fold (trim_space r.profile.protocol) protocol_xray_json

-- The tail of the function, from the test for a provider configuration on.
validate_target : ConnectRequest → Check RequestError
validate_target r =
    if is_provider_config r
    then fail_if (is_empty (trim_space r.profile.reality_spider_x)) missing_profile_reality_spider_x
    else if is_empty r.profile.server
    then err missing_profile_server
    else fail_if (r.profile.port == 0) missing_profile_port

unfoldable pub validate_connect_request : ConnectRequest → Check RequestError
unfolding validate_handoff_policy validate_target
validate_connect_request r = do
  fail_if (is_empty r.mode) missing_mode
  validate_handoff_policy r.handoff
  fail_if (is_empty r.profile.id) missing_profile_id
  fail_if (is_empty r.profile.name) missing_profile_name
  fail_if (is_empty r.profile.protocol) missing_profile_protocol
  validate_target r
