-- ===== src/Collection/Runs.antt =====
-- internal/module/collector/run_repository.go and source/repository.go: the statements on runs and
-- sources that a collection makes.
use contentflow.Prelude.{
  ltb, ◌==◌, if◌then◌else◌, ℤ, pos, eq_ℤ, Sentinel, Err, is_error, Result, Proc, pure, raise, lift,
  gets, wrapping, modify, trying, ◌>>=◌, ◌>>◌, ok, err, first_where, count_where, update_where, ℕ,
  suc, String, Bool, true, false, ◌&&◌, Option, none, some, List, [], ◌∷◌, ◌++◌, str_eq,
}
use contentflow.Collection.Data.{
  Env, Source, run_status_running, run_status_failed, CollectionRun, World, next_tick, statement,
}

pub record FinishRunParams : Type 0 where
  pub run_id : ℕ
  pub status : String
  pub finished_at : ℕ
  pub fetched_count : ℕ
  pub inserted_count : ℕ
  pub duplicated_count : ℕ
  pub error_message : String

abbrev pub has_run_id : ℕ → CollectionRun → Bool
has_run_id id r = r.id == id

abbrev pub to_finished : FinishRunParams → CollectionRun → CollectionRun
to_finished p r = record r {
  status = p.status;
  finished_at = some p.finished_at;
  fetched_count = p.fetched_count;
  inserted_count = p.inserted_count;
  duplicated_count = p.duplicated_count;
  error_message = p.error_message;
}

-- `source_id = ? AND status = 'running' AND started_at < ?`
abbrev pub is_stale : ℕ → ℕ → CollectionRun → Bool
is_stale source_id before r =
    r.source_id == source_id && str_eq r.status run_status_running && ltb r.started_at before

abbrev pub to_stale : ℕ → String → CollectionRun → CollectionRun
to_stale finished_at text r = record r {
  status = run_status_failed;
  finished_at = some finished_at;
  error_message = text;
}

abbrev is_alive : Option ℕ → Bool
is_alive none = true
is_alive (some _) = false

-- `user_id = ? AND id = ? AND deleted_at IS NULL`
abbrev pub is_source : ℤ → ℤ → Source → Bool
is_source user_id id s = eq_ℤ s.user_id user_id && eq_ℤ id (pos s.id) && is_alive s.deleted_at

-- what `Update` writes: all of the source as it was read, with what was changed since
abbrev pub to_fetched : (List ℕ → List ℕ) → Source → Source → Source
to_fetched jsonb src s = record s {
  name = src.name;
  url = src.url;
  config_json = jsonb src.config_json;
  is_active = src.is_active;
  last_fetched_at = src.last_fetched_at;
  last_fetch_status = src.last_fetch_status;
  last_fetch_message = src.last_fetch_message;
  updated_at = src.updated_at;
}

abbrev pub new_run : ℕ → ℕ → ℕ → CollectionRun
new_run source_id now id = record {
  id = id;
  source_id = source_id;
  status = run_status_running;
  started_at = now;
  finished_at = none;
  fetched_count = 0;
  inserted_count = 0;
  duplicated_count = 0;
  error_message = "";
  created_at = now;
}

module _ (env : Env) where
  -- `GormRunRepository.Create`: the id of the new row
  unfoldable pub create_run : ℕ → ℕ → Proc World ℕ
  create_run source_id now = do
    wrapping "create collection run" (statement env)
    λ w. (
      ok w.serial,
      record w { serial = suc w.serial; runs = w.runs ++ new_run source_id now w.serial ∷ [] },
    )

  -- `Finish`
  unfoldable pub finish_run : FinishRunParams → Proc World (Unit {0})
  finish_run params = do
    wrapping "finish collection run" (statement env)
    affected ← gets (λ w. count_where (has_run_id params.run_id) w.runs)
    modify (λ w. record w {
      runs = update_where (has_run_id params.run_id) (to_finished params) w.runs;
    })
    elim (affected == 0) [
      | true ↦ raise (Err.sentinel Sentinel.collection_run_not_found)
      | false ↦ pure tt
    ]

  -- `MarkStaleRunningFailed`: how many rows were changed
  unfoldable pub mark_stale_running_failed : ℕ → ℕ → ℕ → String → Proc World ℕ
  mark_stale_running_failed source_id before finished_at text = do
    wrapping "mark stale running collection runs failed" (statement env)
    affected ← gets (λ w. count_where (is_stale source_id before) w.runs)
    modify (λ w. record w {
      runs = update_where (is_stale source_id before) (to_stale finished_at text) w.runs;
    })
    pure affected

  -- `FindByUserIDAndID` of the sources
  unfoldable pub find_source : ℤ → ℤ → Proc World Source
  find_source user_id id w = elim (env.fault w.tick) [
    | some e ↦
        if is_error e Sentinel.record_not_found
        then (err (Err.sentinel Sentinel.source_not_found), next_tick w)
        else (err (Err.wrap "find source by user id and id" e), next_tick w)
    | none ↦ elim (first_where (is_source user_id id) w.sources) [
      | none ↦ (err (Err.sentinel Sentinel.source_not_found), next_tick w)
      | some s ↦ (ok s, next_tick w)
    ]
  ]

  -- the error of `Update`
  abbrev update_result : Result (Unit {0}) → Result (Unit {0})
  update_result (ok _) = ok tt
  update_result (err e) =
      if is_error e Sentinel.duplicated_key
      then err (Err.sentinel Sentinel.source_url_duplicated)
      else err (Err.wrap "update source" e)

  -- `Update` of the sources
  unfoldable pub update_source : Source → Proc World (Unit {0})
  update_source src = do
    updated ← trying (statement env)
    lift (update_result updated)
    affected ← gets (λ w. count_where (is_source src.user_id (pos src.id)) w.sources)
    modify (λ w. record w {
      sources =
          update_where (is_source src.user_id (pos src.id)) (to_fetched env.jsonb src) w.sources;
    })
    elim (affected == 0) [ true ↦ raise (Err.sentinel Sentinel.source_not_found) | false ↦ pure tt ]
