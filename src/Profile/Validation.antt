-- ===== src/Profile/Validation.antt =====
-- The check of a profile (internal/profile/profile.go: `Validate`). `is_json_object` is what
-- `encoding/json` says of a provider's configuration (internal/profile/xray_provider.go).
use podlaz.Common.{
  ℕ, Bool, true, false, not, ◌&&◌, ◌||◌, List, [], ◌∷◌, ◌++◌, Str, text, to_lower, trim_space,
  is_empty, equal_fold, any, all, elem, is_digit, leb, ◌==◌, if◌then◌else◌,
}
use podlaz.Profile.Model.{
  Profile, SourceType, Engine, xray, amnezia_wg, no_engine, other_engine, manual, subscription,
  imported_file, imported_uri, no_source, other_source, protocol_xray_json, is_provider_config,
  provider_config_json,
}
use podlaz.Profile.Host.{is_ip, is_hostname}

pub data Message : Type 0 where
  id_required id_invalid name_required source_required source_unsupported : Message
  engine_required engine_unsupported protocol_required protocol_unsupported : Message
  provider_protocol provider_source provider_engine config_required config_invalid : Message
  server_required server_whitespace server_invalid port_invalid user_identity_required : Message

when : Bool → Message → List Message
when true m = m ∷ []
when false m = []

unfoldable pub is_id_rune : ℕ → Bool
is_id_rune c = leb b'a' c && leb c b'z' || is_digit c || c == b'.' || c == b'_' || c == b'-'

-- `validID`.
unfoldable pub is_valid_id : Str → Bool
unfolding is_id_rune is_digit
is_valid_id id = all is_id_rune id

source_messages : SourceType → List Message
source_messages no_source = source_required ∷ []
source_messages (other_source _) = source_unsupported ∷ []
source_messages manual = []
source_messages subscription = []
source_messages imported_file = []
source_messages imported_uri = []

engine_messages : Engine → List Message
engine_messages no_engine = engine_required ∷ []
engine_messages (other_engine _) = engine_unsupported ∷ []
engine_messages xray = []
engine_messages amnezia_wg = []

-- `supportedManualProtocol`.
is_supported_protocol : Str → Bool
is_supported_protocol protocol =
    elem (to_lower protocol)
      (text "vless" ∷ text "vmess" ∷ text "trojan" ∷ text "shadowsocks" ∷ protocol_xray_json ∷ [])

-- The checks of every profile.
common_messages : Profile → List Message
unfolding when is_valid_id source_messages engine_messages is_supported_protocol
common_messages p =
    (if is_empty (trim_space p.id)
      then id_required ∷ []
      else when (not (is_valid_id p.id)) id_invalid)
    ++ (when (is_empty (trim_space p.name)) name_required
        ++ (source_messages p.source
            ++ (engine_messages p.engine
                ++ (if is_empty (trim_space p.protocol)
                    then protocol_required ∷ []
                    else when (not (is_supported_protocol p.protocol)) protocol_unsupported))))

holds_config : SourceType → Bool
holds_config subscription = true
holds_config imported_file = true
holds_config manual = false
holds_config imported_uri = false
holds_config no_source = false
holds_config (other_source _) = false

is_xray : Engine → Bool
is_xray xray = true
is_xray amnezia_wg = false
is_xray no_engine = false
is_xray (other_engine _) = false

-- The protocols with a user identity, as they are written.
has_user : Str → Bool
has_user protocol =
    elem protocol (text "vless" ∷ text "vmess" ∷ text "trojan" ∷ text "shadowsocks" ∷ [])

is_imported : SourceType → Bool
is_imported subscription = true
is_imported imported_file = true
is_imported imported_uri = true
is_imported manual = false
is_imported no_source = false
is_imported (other_source _) = false

is_ascii_blank : ℕ → Bool
is_ascii_blank c = c == 32 || c == 9 || c == 10 || c == 13

server_messages : Str → List Message
unfolding is_ascii_blank when
server_messages s =
    if is_empty (trim_space s)
    then server_required ∷ []
    else if any is_ascii_blank s
    then server_whitespace ∷ []
    else when (not (is_ip s) && not (is_hostname s)) server_invalid

-- The checks of a profile with one endpoint.
endpoint_messages : Profile → List Message
unfolding server_messages when is_imported has_user
endpoint_messages p =
    server_messages p.server
    ++ (when (p.port == 0) port_invalid
        ++ when
            (is_imported p.source && has_user p.protocol && is_empty (trim_space p.user_identity))
            user_identity_required)

module _ (is_json_object : Str → Bool) where
  -- The checks of a profile that keeps a provider's configuration.
  provider_messages : Profile → List Message
  unfolding when holds_config is_xray provider_config_json
  provider_messages p =
      when (not (equal_fold (trim_space p.protocol) protocol_xray_json)) provider_protocol
      ++ (when (not (holds_config p.source)) provider_source
          ++ (when (not (is_xray p.engine)) provider_engine
              ++ (if is_empty (trim_space (provider_config_json p))
                  then config_required ∷ []
                  else when (not (is_json_object (provider_config_json p))) config_invalid)))

  -- `Validate`: every message, in their order.
  unfoldable pub validate : Profile → List Message
  unfolding common_messages provider_messages endpoint_messages is_provider_config
  validate p =
      common_messages p
      ++ (if is_provider_config p then provider_messages p else endpoint_messages p)

  unfoldable pub is_valid : Profile → Bool
  unfolding validate
  is_valid p = is_empty (validate p)
