-- ===== src/Collection/Service.antt =====
-- internal/module/collector/service.go, registry.go, transaction.go and lock.go: the collection of a
-- source.
use contentflow.Prelude.{
  ◌==◌, if◌then◌else◌, ℤ, pos, pos_part, ltb_ℤ, leb_ℤ, Sentinel, Err, message, Proc, pure, wrapping,
  ◌>>=◌, ◌>>◌, transaction, ok, err, ℕ, suc, ◌-◌, String, Bool, true, false, ◌&&◌, ◌||◌, not,
  Option, none, some, List, [], ◌∷◌, ◌++◌, str_eq,
}
use contentflow.Collection.Data.{
  Env, Source, run_status_failed, CollectSourceResponse, CollectionObservation, World, next_tick,
  rollback, statement, read_clock,
}
use contentflow.Collection.Runs.{
  FinishRunParams, finish_run, mark_stale_running_failed, update_source,
}

-- `CollectionService`; `registry` lists the types that have a collector.
pub record CollectionService : Type 0 where
  pub registry : List String
  pub has_observer : Bool
  pub has_lock : Bool
  pub has_cache_invalidator : Bool
  pub has_transaction_runner : Bool
  pub has_transaction_db : Bool
  pub has_stale_run_repo : Bool
  pub lock_ttl : ℤ
  pub stale_run_timeout : ℤ

abbrev pub with_collection_lock_ttl : ℤ → CollectionService → CollectionService
with_collection_lock_ttl ttl s = if ltb_ℤ (pos 0) ttl then record s { lock_ttl = ttl } else s

abbrev pub with_stale_run_timeout : ℤ → CollectionService → CollectionService
with_stale_run_timeout timeout s =
    if leb_ℤ (pos 0) timeout then record s { stale_run_timeout = timeout } else s

abbrev pub with_collection_lock : Bool → CollectionService → CollectionService
with_collection_lock b s = record s { has_lock = b }

-- the runner, and whether it has a database
abbrev pub with_transaction_runner : Bool → Bool → CollectionService → CollectionService
with_transaction_runner b db s = record s { has_transaction_runner = b; has_transaction_db = db }

abbrev pub with_observer : Bool → CollectionService → CollectionService
with_observer b s = record s { has_observer = b }

abbrev pub with_source_list_cache_invalidator : Bool → CollectionService → CollectionService
with_source_list_cache_invalidator b s = record s { has_cache_invalidator = b }

abbrev apply_options :
    List (CollectionService → CollectionService) → CollectionService → CollectionService
apply_options [] s = s
apply_options (opt ∷ opts) s = apply_options opts (opt s)

-- `NewService`, with the repository of runs that marks stale ones
abbrev pub new_service :
    List String → List (CollectionService → CollectionService) → CollectionService
new_service registry opts = apply_options opts (record {
  registry = registry;
  has_observer = false;
  has_lock = false;
  has_cache_invalidator = false;
  has_transaction_runner = false;
  has_transaction_db = false;
  has_stale_run_repo = true;
  lock_ttl = pos 600_000_000_000;
  stale_run_timeout = pos 1_800_000_000_000;
})

-- `Registry.Get`: whether the type has a collector
unfoldable pub get : List String → String → Bool
get [] source_type = false
get (t ∷ ts) source_type = str_eq t source_type || get ts source_type

-- What `CollectSource` returns besides a plain error: a response, and the error that may come with it.
pub record Collected : Type 0 where
  pub response : CollectSourceResponse
  pub failure : Option Err

-- a source with the result of a collection
abbrev pub fetched : ℕ → String → String → Source → Source
fetched at status text src = record src {
  last_fetched_at = some at;
  last_fetch_status = status;
  last_fetch_message = text;
  updated_at = at;
}

module _ (env : Env) (s : CollectionService) where
  -- whether there is a runner, and `RunInTransaction` does not just call its argument
  abbrev pub has_transaction : Bool
  has_transaction = s.has_transaction_runner && s.has_transaction_db

  -- `runInFinalizationTransaction`, with `RunInTransaction`: BEGIN, the calls and COMMIT
  abbrev pub in_transaction : {A : Type 0} → Proc World A → Proc World A
  in_transaction f =
      if has_transaction
      then wrapping "run transaction"
          (statement env >> transaction rollback (do r ← f; statement env; pure r))
      else f

  abbrev pub invalidate_source_list_cache : ℤ → Proc World (Unit {0})
  invalidate_source_list_cache user_id w = (
    ok tt,
    if s.has_cache_invalidator then record w { invalidated = w.invalidated ++ user_id ∷ [] } else w,
  )

  abbrev pub observe : CollectionObservation → Proc World (Unit {0})
  observe observation w =
      (ok tt, if s.has_observer then record w { observed = w.observed ++ observation ∷ [] } else w)

  mark_stale_in_tx : Source → ℕ → Proc World ℕ
  mark_stale_in_tx src now = do
    marked ←
        mark_stale_running_failed env src.id (now - pos_part s.stale_run_timeout) now
          (env.timed_out_text s.stale_run_timeout)
    elim (marked == 0) [
      | true ↦ pure marked
      | false ↦ do
        wrapping "update source stale run status" (
            update_source env
              (fetched now run_status_failed (env.timed_out_text s.stale_run_timeout) src))
        pure marked
    ]

  -- `markStaleRunningRunsFailed`; the source that the code changes in place is returned
  unfoldable pub mark_stale_running_runs_failed : Source → Proc World Source
  unfolding mark_stale_in_tx
  mark_stale_running_runs_failed src =
      if leb_ℤ s.stale_run_timeout (pos 0) || not s.has_stale_run_repo then pure src else do
        now ← read_clock env
        marked ←
            wrapping "mark stale collection runs failed" (in_transaction (mark_stale_in_tx src now))
        elim (marked == 0) [
          | true ↦ pure src
          | false ↦ do
            invalidate_source_list_cache src.user_id
            pure (fetched now run_status_failed (env.timed_out_text s.stale_run_timeout) src)
        ]

  -- `acquireLock`, with `RedisCollectionLock.Acquire`: whether the lock was taken
  unfoldable pub acquire_lock : ℕ → Proc World Bool
  acquire_lock source_id w =
      if not s.has_lock then (ok true, w) else elim (env.acquire w.tick source_id) [
        | err e ↦ (err (Err.wrap "acquire collection lock" e), next_tick w)
        | ok false ↦ (ok false, next_tick w)
        | ok true ↦
            (ok true, record w { tick = suc w.tick; acquired = w.acquired ++ source_id ∷ [] })
      ]

  -- the deferred release; an error of it is only logged
  abbrev pub release : ℕ → Proc World (Unit {0})
  release source_id w = (
    ok tt,
    if s.has_lock
        then record w {
          tick = suc w.tick;
          tried = w.tried ++ source_id ∷ [];
          released = elim (env.release_error w.tick source_id) [
            | none ↦ w.released ++ source_id ∷ []
            | some e ↦ w.released
          ];
        }
        else w,
  )

  unfoldable pub finish_in_tx : FinishRunParams → String → String → Source → Proc World (Unit {0})
  finish_in_tx params finish_text update_text src = do
    wrapping finish_text (finish_run env params)
    wrapping update_text
        (update_source env (fetched params.finished_at params.status params.error_message src))

  abbrev pub failed_params : ℕ → ℕ → ℕ → Err → FinishRunParams
  failed_params run_id finished_at fetched_count cause = record {
    run_id = run_id;
    status = run_status_failed;
    finished_at = finished_at;
    fetched_count = fetched_count;
    inserted_count = 0;
    duplicated_count = 0;
    error_message = message cause;
  }

  -- `finishFailed`
  unfoldable pub finish_failed : ℕ → Source → ℕ → Err → Proc World Collected
  finish_failed run_id src fetched_count cause = do
    finished_at ← read_clock env
    in_transaction (
        finish_in_tx (failed_params run_id finished_at fetched_count cause)
          "finish collection run failed" "update source failed status" src)
    invalidate_source_list_cache src.user_id
    observe (record {
      run_id = run_id;
      source_id = src.id;
      source_type = src.source_type;
      status = run_status_failed;
      fetched_count = fetched_count;
      inserted_count = 0;
      duplicated_count = 0;
      error_message = message cause;
    })
    pure (record {
      response = record {
        run_id = run_id;
        source_id = src.id;
        status = run_status_failed;
        fetched_count = fetched_count;
        inserted_count = 0;
        duplicated_count = 0;
        error_message = message cause;
      };
      failure = some (Err.detail Sentinel.collection_failed (message cause));
    })
