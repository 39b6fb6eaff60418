-- ===== src/Collection/Tests.antt =====
-- Collections of concrete sources.
use contentflow.Prelude.{
  ◌==◌, if◌then◌else◌, pos, Err, ok, length, first_where, count_where, update_where, ◌+◌, ◌≡◌, refl,
  true, none, some, [], ◌∷◌, ◌++◌,
}
use contentflow.Collection.Data.{Env, Source, CollectedItem, CollectSourceRequest, World}
use contentflow.Collection.Runs.{
  find_source, create_run, finish_run, mark_stale_running_failed, update_source,
}
use contentflow.Collection.Service.{
  get, new_service, with_collection_lock, CollectionService, with_transaction_runner,
  mark_stale_running_runs_failed, acquire_lock, finish_in_tx,
}
use contentflow.Collection.Collect.{
  collect_source, finish_success_in_tx, finish_success, collect_locked, collect_found,
}
use contentflow.Collection.Lock.{collect_source-released}
use contentflow.Collection.Atomic.{collect_source-atomic}
use contentflow.Collection.Recorded.{collect_source-IsRecordedIn, IsStored, stored_run}

abbrev feed : Source
feed = record {
  id = 7;
  user_id = pos 5;
  name = "Feed";
  source_type = "rss";
  url = some "https://example.org/feed";
  config_json = [];
  is_active = true;
  last_fetched_at = none;
  last_fetch_status = "";
  last_fetch_message = "";
  updated_at = 900;
  deleted_at = none;
}

abbrev item : CollectedItem
item = record {
  user_id = pos 5;
  source_id = pos 7;
  source_type = "rss";
  external_id = some "guid-1";
  title = "A title";
  url = none;
  original_url = none;
  author = "";
  summary = "";
  content = "";
  content_hash = "h1";
  published_at = none;
}

-- the statement that finishes the run fails, after the articles were saved
abbrev faulty : Env
faulty = record {
  fault = λ n. if n == 12 then some (Err.other "connection reset") else none;
  clock = λ n. 1000 + n;
  acquire = λ n id. ok true;
  collect = λ n src. ok (item ∷ []);
  left_config = λ n src. src.config_json;
  jsonb = λ text. text;
  release_error = λ n id. none;
  save = λ n items stored.
      (ok (record { inserted_count = length items; duplicated_count = 0 }), stored ++ items);
  timed_out_text = λ d. "collection run timed out after 30m0s";
}

abbrev service : CollectionService
service =
    new_service ("rss" ∷ []) (with_collection_lock true ∷ with_transaction_runner true true ∷ [])

abbrev world : World
world = record {
  tick = 0;
  serial = 1;
  sources = feed ∷ [];
  runs = [];
  articles = [];
  acquired = [];
  tried = [];
  released = [];
  invalidated = [];
  observed = [];
}

abbrev req : CollectSourceRequest
req = record { user_id = pos 5; source_id = pos 7 }

collect_source-released_example :
    (collect_source faulty service req world).1.acquired
    ≡ (collect_source faulty service req world).1.tried
collect_source-released_example = collect_source-released faulty service req world refl

collect_source-atomic_example : (collect_source faulty service req world).1.articles ≡ []
unfolding collect_source find_source collect_found mark_stale_running_runs_failed
    mark_stale_running_failed acquire_lock collect_locked create_run finish_success
    finish_success_in_tx finish_in_tx finish_run update_source count_where update_where first_where
    get
collect_source-atomic_example = collect_source-atomic faulty service req world refl refl

abbrev calm : Env
calm = record faulty { fault = λ n. none }

-- the response of the collection names the run 1, which is stored with its counts
collect_source-IsRecordedIn_example :
    IsStored "success" 1 1 0 "" (stored_run 1 (collect_source calm service req world).1)
unfolding collect_source find_source collect_found mark_stale_running_runs_failed
    mark_stale_running_failed acquire_lock collect_locked create_run finish_success
    finish_success_in_tx finish_in_tx finish_run update_source count_where update_where first_where
    get
collect_source-IsRecordedIn_example = collect_source-IsRecordedIn calm service req world

-- without a fault the article is stored, and the lock was taken and given back
collected_test : length (collect_source calm service req world).1.articles ≡ 1
unfolding collect_source find_source collect_found mark_stale_running_runs_failed
    mark_stale_running_failed acquire_lock collect_locked create_run finish_success
    finish_success_in_tx finish_in_tx finish_run update_source count_where update_where first_where
    get
collected_test = refl
