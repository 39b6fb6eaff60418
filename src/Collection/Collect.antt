-- ===== src/Collection/Collect.antt =====
-- internal/module/collector/service.go: `finishSuccess` and `CollectSource`.
use contentflow.Prelude.{
  if◌then◌else◌, Sentinel, Err, is_error, Result, Proc, pure, raise, gets, wrapping, trying, ◌>>=◌,
  ◌>>◌, ok, err, length, ℕ, suc, Bool, true, false, Option, none, some, List,
}
use contentflow.Collection.Data.{
  Env, Source, run_status_success, CollectedItem, ArticleWriteResult, CollectSourceRequest, World,
  next_tick, read_clock, statement,
}
use contentflow.Collection.Runs.{create_run, FinishRunParams, find_source}
use contentflow.Collection.Service.{
  get, CollectionService, Collected, in_transaction, invalidate_source_list_cache, observe,
  mark_stale_running_runs_failed, acquire_lock, release, finish_in_tx, finish_failed,
  has_transaction,
}

-- `defer`
abbrev pub deferred : {A : Type 0} → Proc World (Unit {0}) → Proc World A → Proc World A
deferred d m w = let (r, w') = m w in (r, (d w').1)

module _ (env : Env) (s : CollectionService) where
  -- `SaveCollectedItems`
  abbrev pub save_items : List CollectedItem → Proc World ArticleWriteResult
  save_items items w =
      let (r, articles) = env.save w.tick items w.articles in
      (r, record w { tick = suc w.tick; articles = articles })

  abbrev pub success_params : ℕ → ℕ → List CollectedItem → ArticleWriteResult → FinishRunParams
  success_params run_id finished_at items written = record {
    run_id = run_id;
    status = run_status_success;
    finished_at = finished_at;
    fetched_count = length items;
    inserted_count = written.inserted_count;
    duplicated_count = written.duplicated_count;
    error_message = "";
  }

  -- the transaction of `finishSuccess`
  unfoldable pub finish_success_in_tx :
      ℕ → Source → List CollectedItem → Proc World ArticleWriteResult
  finish_success_in_tx run_id src items = do
    written ← save_items items
    finished_at ← read_clock env
    finish_in_tx env s (success_params run_id finished_at items written)
        "finish collection run success" "update source fetch status" src
    pure written

  abbrev collected : ℕ → Source → List CollectedItem → ArticleWriteResult → Collected
  collected run_id src items written = record {
    response = record {
      run_id = run_id;
      source_id = src.id;
      status = run_status_success;
      fetched_count = length items;
      inserted_count = written.inserted_count;
      duplicated_count = written.duplicated_count;
      error_message = "";
    };
    failure = none;
  }

  -- `CollectSource` after `finishSuccess`
  abbrev announce : ℕ → Source → List CollectedItem → ArticleWriteResult → Proc World Collected
  announce run_id src items written = do
    invalidate_source_list_cache env s src.user_id
    observe env s (record {
      run_id = run_id;
      source_id = src.id;
      source_type = src.source_type;
      status = run_status_success;
      fetched_count = length items;
      inserted_count = written.inserted_count;
      duplicated_count = written.duplicated_count;
      error_message = "";
    })
    pure (collected run_id src items written)

  -- `articleWriteErr`: the transaction opens and then saves the articles, so that it is the error of
  -- `save_items` in the world after the opening
  abbrev pub write_error : List CollectedItem → World → Option Err
  write_error items w =
      let (opened, w') = (if has_transaction env s then statement env else pure tt) w in
      elim opened [
        | err e ↦ none
        | ok _ ↦ elim (save_items items w').0 [ err e ↦ some e | ok _ ↦ none ]
      ]

  -- `finishSuccess` and what follows it. When the articles cannot be saved, the run is finished as
  -- failed; any other error of the transaction is returned.
  unfoldable pub finish_success : ℕ → Source → List CollectedItem → Proc World Collected
  finish_success run_id src items w =
      let (r, w') = in_transaction env s (finish_success_in_tx run_id src items) w in
      elim (write_error items w) [
        | some e ↦ finish_failed env s run_id src (length items) e w'
        | none ↦ elim r [ err e ↦ (err e, w') | ok written ↦ announce run_id src items written w' ]
      ]

  -- `Collect`
  abbrev collect_items : Source → Proc World (Result (List CollectedItem))
  collect_items src w = (ok (env.collect w.tick src), next_tick w)

  abbrev pub after_collect : ℕ → Source → Result (List CollectedItem) → Proc World Collected
  after_collect run_id src (err e) = finish_failed env s run_id src 0 e
  after_collect run_id src (ok items) = finish_success run_id src items

  -- the source after the collector, which is called third
  abbrev pub left_source : Source → World → Source
  left_source src w = record src { config_json = env.left_config (suc (suc w.tick)) src }

  -- what is done while the lock is held
  unfoldable pub collect_locked : Source → Proc World Collected
  collect_locked src = do
    now ← read_clock env
    run_id ← wrapping "create collection run" (create_run env src.id now)
    left ← gets (λ w. env.left_config w.tick src)
    r ← collect_items src
    after_collect run_id (record src { config_json = left }) r

  -- once it is known whether the lock was taken
  abbrev pub after_acquire : Source → Bool → Proc World Collected
  after_acquire src false = raise (Err.sentinel Sentinel.collection_in_progress)
  after_acquire src true = deferred (release env s src.id) (collect_locked src)

  unfoldable pub collect_found : Source → Proc World Collected
  collect_found found = do
    src ← mark_stale_running_runs_failed env s found
    elim (get s.registry src.source_type) [
      | false ↦ raise (Err.sentinel Sentinel.collector_not_found)
      | true ↦ do acquired ← acquire_lock env s src.id; after_acquire src acquired
    ]

  abbrev pub after_find : Result Source → Proc World Collected
  after_find (ok src) = collect_found src
  after_find (err e) =
      if is_error e Sentinel.source_not_found
      then raise (Err.sentinel Sentinel.source_not_accessible)
      else raise (Err.wrap "find source" e)

  -- `CollectSource`
  unfoldable pub collect_source : CollectSourceRequest → Proc World Collected
  collect_source req = do r ← trying (find_source env req.user_id req.source_id); after_find r
