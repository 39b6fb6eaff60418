-- ===== src/Sources/Answers.antt =====
-- What the lists of sources show, from the database or from the cache.
use contentflow.Prelude.{
  Result, Result-cases, ok, err, All, All-mono, ℕ, ◌≡◌, refl, ap, inl, inr, true, some, List, [],
  ◌∷◌, map, arith,
}
use mathlib.Core.Path.{subst}
use contentflow.Sources.Data.{
  Env, Source, SourceDto, ListSourcesRequest, ListSourcesResponse, World,
}
use contentflow.Sources.Config.{redact_config}
use contentflow.Sources.Repository.{list_by_user_id}
use contentflow.Sources.Request.{
  SourceService, normalize_limit, normalize_offset, to_dto, redact_dto, redact_source_list_response,
  normalize_type,
}
use contentflow.Sources.Service.{list_stored, list_sources}
use contentflow.Sources.Redaction.{
  IsFaithfulJson, IsShowable, redact_config-IsShowable, redact_config_twice,
}

module _ (env : Env) (s : SourceService) where
  -- the configuration is one that was redacted
  abbrev IsShown : SourceDto → Type 0
  IsShown d = (raw : List ℕ) × (d.config ≡ redact_config env raw)

  to_dto-IsShown : (rows : List Source) → All IsShown (map (to_dto env) rows)
  to_dto-IsShown [] = tt
  to_dto-IsShown (r ∷ rs) = ((r.config_json, refl), to_dto-IsShown rs)

  redact_dto-IsShown : (ds : List SourceDto) → All IsShown (map (redact_dto env) ds)
  redact_dto-IsShown [] = tt
  redact_dto-IsShown (d ∷ ds) = ((d.config, refl), redact_dto-IsShown ds)

  abbrev AnswersShown : Result ListSourcesResponse → Type 0
  AnswersShown (ok resp) = All IsShown resp.sources
  AnswersShown (err e) = Unit {0}

  list_stored-IsShown :
      (req : ListSourcesRequest) (w : World) → AnswersShown (list_stored env s req w).0
  unfolding list_stored
  list_stored-IsShown req w = elim (Result-cases (list_by_user_id env req w).0) [
    | inr (e, bad) ↦ ground arith
    | inl (page, good) ↦ ground (arith, to_dto-IsShown page.0)
  ]

  list_sources-IsShown :
      (req : ListSourcesRequest) (w : World) → AnswersShown (list_sources env s req w).0
  unfolding list_sources
  list_sources-IsShown req w = grind (arith, list_stored-IsShown, redact_dto-IsShown)

  -- Whatever the cache answers, the list of sources shows of every configuration a text of JSON in
  -- which, at any depth, each sensitive key has the value "[REDACTED]". It is assumed that the encoder
  -- and the decoder of JSON fit together.
  pub list_sources-IsShowable :
      (json : IsFaithfulJson env) (req : ListSourcesRequest) (w : World)
      (resp : ListSourcesResponse)
      → (list_sources env s req w).0 ≡ ok resp
      → All (λ d. IsShowable env d.config) resp.sources
  list_sources-IsShowable json req w resp done =
      let shown : All IsShown resp.sources = subst AnswersShown done (list_sources-IsShown req w) in
      All-mono (λ d known. rw known.1 (redact_config-IsShowable env json known.0)) resp.sources
        shown

  redact_dto-shown :
      IsFaithfulJson env → (ds : List SourceDto) → All IsShown ds → map (redact_dto env) ds ≡ ds
  redact_dto-shown json [] h = refl
  redact_dto-shown json (d ∷ ds) h =
      let same : redact_config env d.config ≡ d.config =
        rw h.0.1 (redact_config_twice env json h.0.0) in
      let head : redact_dto env d ≡ d = ap (λ (c : List ℕ). record d { config = c }) same in
      rw (head, redact_dto-shown json ds h.1) refl

  -- the request as it is looked up in the cache and in the database
  abbrev pub normalized : ListSourcesRequest → ListSourcesRequest
  normalized req = record {
    user_id = req.user_id;
    kind = normalize_type env req.kind;
    limit = normalize_limit req.limit;
    offset = normalize_offset req.offset;
  }

  -- An answer that the cache kept is given again as it was: although it is redacted a second time, a
  -- cache hit and the first answer are the same.
  pub list_sources_cached :
      (json : IsFaithfulJson env) (req : ListSourcesRequest) (w later : World)
      (resp : ListSourcesResponse)
      → s.has_list_cache ≡ true
      → (list_sources env s req w).0 ≡ ok resp
      → env.cached later.tick (normalized req) ≡ ok (some resp)
      → (list_sources env s req later).0 ≡ ok resp
  unfolding list_sources
  list_sources_cached json req w later resp has done hit =
      let shown : All IsShown resp.sources = subst AnswersShown done (list_sources-IsShown req w) in
      let same : redact_source_list_response env resp ≡ resp =
        ap (λ (ds : List SourceDto). record resp { sources = ds })
          (redact_dto-shown json resp.sources shown) in
      ground (arith, has, done, hit, same)
