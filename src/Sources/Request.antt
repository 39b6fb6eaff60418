-- ===== src/Sources/Request.antt =====
-- internal/module/source/service.go: the settings, the checks of a request and the answers.
use contentflow.Prelude.{
  ltb, if◌then◌else◌, is_some, ℤ, pos, ltb_ℤ, leb_ℤ, trim_space, byte_length, Sentinel, Err, Result,
  is_ok, ok, err, String, Bool, true, false, ◌&&◌, ◌||◌, not, Option, none, some, map, str_eq,
}
use contentflow.Netguard.{Net, validate_http_url}
use contentflow.Sources.Data.{Env, Source, SourceDto, ListSourcesResponse, type_rss}
use contentflow.Sources.Config.{redact_config}

pub record SourceService : Type 0 where
  pub has_list_cache : Bool

-- `WithListCache`: whether there is a cache, and how long its entries live
abbrev pub with_list_cache : Bool → ℤ → SourceService → SourceService
with_list_cache given ttl s =
    if given && ltb_ℤ (pos 0) ttl then record { has_list_cache = true } else s

-- `normalizeName`
unfoldable pub normalize_name : String → Result String
normalize_name raw =
    let name = trim_space raw in
    if str_eq name ""
    then err (Err.sentinel Sentinel.invalid_source_name)
    else if ltb 200 (byte_length name)
    then err (Err.sentinel Sentinel.invalid_source_name)
    else ok name

-- `normalizeLimit`
abbrev pub normalize_limit : ℤ → ℤ
normalize_limit limit =
    if leb_ℤ limit (pos 0) then pos 20 else if ltb_ℤ (pos 100) limit then pos 100 else limit

-- `normalizeOffset`
abbrev pub normalize_offset : ℤ → ℤ
normalize_offset offset = if ltb_ℤ offset (pos 0) then pos 0 else offset

module _ (net : Net) where
  abbrev pub is_url_accepted : String → Bool
  is_url_accepted value = elim (net.parse_request_uri value) [
    | err e ↦ false
    | ok parsed ↦
        (str_eq parsed.scheme "http" || str_eq parsed.scheme "https")
        && is_ok (validate_http_url net value)
  ]

  -- `normalizeURL`
  unfoldable pub normalize_url : Option String → Result (Option String)
  normalize_url none = ok none
  normalize_url (some raw) =
      let value = trim_space raw in
      if str_eq value ""
      then ok none
      else if is_url_accepted value
      then ok (some value)
      else err (Err.sentinel Sentinel.invalid_source_url)

module _ (env : Env) where
  -- `toDTO`
  abbrev pub to_dto : Source → SourceDto
  to_dto src = record {
    id = src.id;
    name = src.name;
    kind = src.kind;
    url = src.url;
    config = redact_config env src.config_json;
    is_active = src.is_active;
    last_fetched_at = src.last_fetched_at;
    last_fetch_status = src.last_fetch_status;
    last_fetch_message = src.last_fetch_message;
    created_at = src.created_at;
    updated_at = src.updated_at;
  }

  abbrev pub redact_dto : SourceDto → SourceDto
  redact_dto d = record d { config = redact_config env d.config }

  -- `redactSourceListResponse`
  abbrev pub redact_source_list_response : ListSourcesResponse → ListSourcesResponse
  redact_source_list_response resp = record resp { sources = map redact_dto resp.sources }

  abbrev pub normalize_type : String → String
  normalize_type kind = trim_space (env.net.to_lower kind)

  -- the URL of a source of the type
  abbrev pub url_of_type : String → Option String → Result (Option String)
  url_of_type kind raw = elim (normalize_url env.net raw) [
    | err e ↦ err e
    | ok url ↦
        if str_eq kind type_rss && not (is_some url)
        then err (Err.sentinel Sentinel.invalid_source_url)
        else ok url
  ]
