-- ===== src/Sources/Service.antt =====
-- internal/module/source/service.go: the operations on the sources of a user.
use contentflow.Prelude.{
  if◌then◌else◌, Sentinel, Err, is_error, Result, Proc, pure, raise, lift, wrapping, modify, trying,
  ◌>>=◌, ◌>>◌, ok, err, ℕ, suc, String, true, ◌&&◌, not, Option, none, some, List, ◌∷◌, map, str_eq,
}
use contentflow.Sources.Request.{
  SourceService, normalize_name, normalize_limit, normalize_offset, to_dto,
  redact_source_list_response, normalize_type, url_of_type,
}
use contentflow.Sources.Data.{
  Env, Source, SourceDto, CreateSourceRequest, ListSourcesRequest, ListSourcesResponse,
  GetSourceRequest, UpdateSourceRequest, World, is_valid_type, next_tick, read_clock,
}
use contentflow.Sources.Config.{normalize_source_config}
use contentflow.Sources.Repository.{
  create, find_by_user_id_and_id, list_by_user_id, update, soft_delete,
}

module _ (env : Env) (s : SourceService) where
  -- `deleteUserListCache`, whose error is dropped
  abbrev pub delete_user_list_cache : ℕ → Proc World (Unit {0})
  delete_user_list_cache user_id =
      if s.has_list_cache
      then modify (λ w. record w { tick = suc w.tick; invalidated = user_id ∷ w.invalidated })
      else pure tt

  -- an error of the repository as the callers see it
  abbrev pub shown_error : String → Err → Err
  shown_error text e =
      if is_error e Sentinel.source_not_found
      then Err.sentinel Sentinel.source_not_accessible
      else if is_error e Sentinel.source_url_duplicated
      then Err.sentinel Sentinel.source_already_exists
      else Err.wrap text e

  -- the source that a request describes, before it has an id
  abbrev pub new_source :
      CreateSourceRequest → String → String → Option String → List ℕ → ℕ → Source
  new_source req name kind url config now = record {
    id = 0;
    user_id = req.user_id;
    name = name;
    kind = kind;
    url = url;
    config_json = config;
    is_active = true;
    last_fetched_at = none;
    last_fetch_status = "";
    last_fetch_message = "";
    created_at = now;
    updated_at = now;
    deleted_at = none;
  }

  abbrev create_error : Err → Err
  create_error e =
      if is_error e Sentinel.source_url_duplicated
      then Err.sentinel Sentinel.source_already_exists
      else Err.wrap "create source" e

  -- the rest of `CreateSource` once the request is checked
  unfoldable pub create_checked : Source → Proc World SourceDto
  create_checked src = do
    r ← trying (create env src)
    stored ← lift (elim r [ ok x ↦ ok x | err e ↦ err (create_error e) ])
    delete_user_list_cache src.user_id
    pure (to_dto env stored)

  -- `CreateSource`
  unfoldable pub create_source : CreateSourceRequest → Proc World SourceDto
  create_source req = do
    name ← lift (normalize_name req.name)
    kind ← lift (
        if is_valid_type (normalize_type env req.kind)
        then ok (normalize_type env req.kind)
        else err (Err.sentinel Sentinel.invalid_source_type))
    url ← lift (url_of_type env kind req.url)
    config ← lift (normalize_source_config env kind req.config)
    now ← read_clock env
    create_checked (new_source req name kind url config now)

  -- the rest of `ListSources` when the cache has no answer
  unfoldable pub list_stored : ListSourcesRequest → Proc World ListSourcesResponse
  list_stored req = do
    page ← wrapping "list sources" (list_by_user_id env req)
    let resp : ListSourcesResponse = record {
      sources = map (to_dto env) page.0;
      total = page.1;
      limit = req.limit;
      offset = req.offset;
    }
    (if s.has_list_cache
        then modify (λ w. record w { tick = suc w.tick; stored = (req, resp) ∷ w.stored })
        else pure tt)
    pure resp

  abbrev list_normalized : ListSourcesRequest → Proc World ListSourcesResponse
  list_normalized req w =
      if s.has_list_cache
      then elim (env.cached w.tick req) [
        | err e ↦ list_stored req (next_tick w)
        | ok hit ↦ elim hit [
          | none ↦ list_stored req (next_tick w)
          | some resp ↦ (ok (redact_source_list_response env resp), next_tick w)
        ]
      ]
      else list_stored req w

  -- `ListSources`
  unfoldable pub list_sources : ListSourcesRequest → Proc World ListSourcesResponse
  list_sources req =
      let kind = normalize_type env req.kind in
      if not (str_eq kind "") && not (is_valid_type kind)
      then raise (Err.sentinel Sentinel.invalid_source_type)
      else list_normalized (record {
        user_id = req.user_id;
        kind = kind;
        limit = normalize_limit req.limit;
        offset = normalize_offset req.offset;
      })

  -- `GetSource`
  unfoldable pub get_source : GetSourceRequest → Proc World SourceDto
  get_source req = do
    r ← trying (find_by_user_id_and_id env req.user_id req.source_id)
    src ← lift (elim r [
      | ok x ↦ ok x
      | err e ↦ err (
          if is_error e Sentinel.source_not_found
          then Err.sentinel Sentinel.source_not_accessible
          else Err.wrap "get source" e)
    ])
    pure (to_dto env src)

  -- the fields that an update request names, in the order of their checks
  unfoldable pub updated_name : UpdateSourceRequest → Source → Result Source
  updated_name req src = elim (req.name) [
    | none ↦ ok src
    | some raw ↦ elim (normalize_name raw) [
      | err e ↦ err e
      | ok name ↦ ok (record src { name = name })
    ]
  ]

  unfoldable pub updated_url : UpdateSourceRequest → Source → Result Source
  updated_url req src = elim (req.url) [
    | none ↦ ok src
    | some raw ↦ elim (url_of_type env src.kind (some raw)) [
      | err e ↦ err e
      | ok url ↦ ok (record src { url = url })
    ]
  ]

  unfoldable pub updated_config : UpdateSourceRequest → Source → Result Source
  updated_config req src = elim (req.config) [
    | none ↦ ok src
    | some raw ↦ elim (normalize_source_config env src.kind raw) [
      | err e ↦ err e
      | ok config ↦ ok (record src { config_json = config })
    ]
  ]

  abbrev pub updated_active : UpdateSourceRequest → Source → Source
  updated_active req src = elim (req.is_active) [
    | none ↦ src
    | some b ↦ record src { is_active = b }
  ]

  -- the rest of `UpdateSource` once the request is checked
  unfoldable pub update_checked : ℕ → Source → Proc World SourceDto
  update_checked user_id src = do
    r ← trying (update env src)
    done ← lift (elim r [ ok x ↦ ok x | err e ↦ err (shown_error "update source" e) ])
    delete_user_list_cache user_id
    pure (to_dto env src)

  -- `UpdateSource`
  unfoldable pub update_source : UpdateSourceRequest → Proc World SourceDto
  update_source req = do
    r ← trying (find_by_user_id_and_id env req.user_id req.source_id)
    src ← lift (elim r [
      | ok x ↦ ok x
      | err e ↦ err (
          if is_error e Sentinel.source_not_found
          then Err.sentinel Sentinel.source_not_accessible
          else Err.wrap "find source before update" e)
    ])
    named ← lift (updated_name req src)
    placed ← lift (updated_url req named)
    configured ← lift (updated_config req placed)
    now ← read_clock env
    update_checked req.user_id (record (updated_active req configured) { updated_at = now })

  -- `DeleteSource`
  unfoldable pub delete_source : GetSourceRequest → Proc World (Unit {0})
  delete_source req = do
    now ← read_clock env
    r ← trying (soft_delete env req.user_id req.source_id now)
    lift (elim r [
      | ok x ↦ ok x
      | err e ↦ err (
          if is_error e Sentinel.source_not_found
          then Err.sentinel Sentinel.source_not_accessible
          else Err.wrap "delete source" e)
    ])
    delete_user_list_cache req.user_id
