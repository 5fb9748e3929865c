-- ===== src/Api/Laws.antt =====
-- What a request that passes validation holds.
use podlaz.Common.{◌≡◌, ◌≢◌, ◌↔◌, true, false, [], ok, trim_space, arith}
use podlaz.Api.{
  ConnectRequest, is_provider_config, is_known_policy, normalize_handoff_policy,
  validate_connect_request,
}

pub record IsComplete (r : ConnectRequest) : Type 0 where
  pub mode_given : r.mode ≢ []
  pub policy_known : is_known_policy (normalize_handoff_policy r.handoff) ≡ true
  pub id_given : r.profile.id ≢ []
  pub name_given : r.profile.name ≢ []
  pub protocol_given : r.profile.protocol ≢ []
  pub config_given : is_provider_config r ≡ true → trim_space r.profile.reality_spider_x ≢ []
  pub server_given : is_provider_config r ≡ false → r.profile.server ≢ []
  pub port_given : is_provider_config r ≡ false → r.profile.port ≢ 0

-- Validation accepts exactly the complete requests.
pub validate_connect_request-IsComplete :
    (r : ConnectRequest) → (validate_connect_request r ≡ ok tt) ↔ IsComplete r
unfolding validate_connect_request
validate_connect_request-IsComplete r = ground arith
