-- ===== src/Subscription/Model.antt =====
-- A subscription source and its checks (internal/sub/source_model.go, source_validation.go).
-- `parse_url` is what `net/url` makes of a text.
use podlaz.Common.{
  ℕ, Bool, not, ◌&&◌, ◌||◌, List, [], ◌∷◌, ◌++◌, Option, none, some, Str, text, str_eq, is_empty,
  trim_space, if◌then◌else◌,
}

pub data Format : Type 0 where
  unknown_format uri_list base64 xray_json sing_box mihomo no_format : Format
  other_format : Str → Format

pub record Source : Type 0 where
  pub id : Str
  pub name : Str
  pub url : Str
  pub format : Format
  pub profile_ids : List Str
  pub last_updated_at : ℕ

abbrev pub source_id : Source → Str
source_id s = s.id

pub record Url : Type 0 where
  pub scheme : Str
  pub host : Str
  pub path : Str

pub data Message : Type 0 where
  id_required name_required url_required url_invalid scheme_missing file_host file_path : Message
  host_required unsupported_scheme format_required unsupported_format : Message

-- `Format` as `ValidateSource` reads it.
format_messages : Format → List Message
format_messages uri_list = []
format_messages base64 = []
format_messages xray_json = []
format_messages mihomo = []
format_messages no_format = format_required ∷ []
format_messages unknown_format = unsupported_format ∷ []
format_messages sing_box = unsupported_format ∷ []
format_messages (other_format _) = unsupported_format ∷ []

required : Message → Str → List Message
required m s = if is_empty (trim_space s) then m ∷ [] else []

file_messages : Url → List Message
file_messages u =
    if not (is_empty u.host) && not (str_eq u.host (text "localhost"))
    then file_host ∷ []
    else if is_empty u.path
    then file_path ∷ []
    else []

module _ (lower : Str → Str) where
  scheme_messages : Url → List Message
  unfolding file_messages
  scheme_messages u =
      let scheme = lower u.scheme in
      if is_empty u.scheme
      then scheme_missing ∷ []
      else if str_eq scheme (text "file")
      then file_messages u
      else if not (str_eq scheme (text "http") || str_eq scheme (text "https"))
      then unsupported_scheme ∷ []
      else if is_empty u.host
      then host_required ∷ []
      else []

  -- `validateSourceURL`.
  url_messages : Option Url → List Message
  unfolding scheme_messages
  url_messages none = url_invalid ∷ []
  url_messages (some u) = scheme_messages u

  module _ (parse_url : Str → Option Url) where
    -- `ValidateSource`: the problems it joins into one error.
    unfoldable pub validate_source : Source → List Message
    unfolding required url_messages format_messages
    validate_source s =
        required id_required s.id
        ++ (required name_required s.name
            ++ ((if is_empty (trim_space s.url)
                  then url_required ∷ []
                  else url_messages (parse_url (trim_space s.url)))
                ++ format_messages s.format))

    unfoldable pub is_valid_source : Source → Bool
    unfolding validate_source
    is_valid_source s = is_empty (validate_source s)
