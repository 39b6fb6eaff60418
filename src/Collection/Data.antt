-- ===== src/Collection/Data.antt =====
-- internal/module/collector/model.go, dto.go, item.go, status.go and source/model.go: the rows and
-- requests of a collection, and the world they live in. As for the jobs, what stands outside answers
-- by the number of the call.
use contentflow.Prelude.{
  ℤ, Err, Result, Proc, ok, err, ℕ, suc, String, Bool, Option, none, some, List,
}

-- The fields of a source that a collection reads or writes.
pub record Source : Type 0 where
  pub id : ℕ
  pub user_id : ℤ
  pub name : String
  pub source_type : String
  pub url : Option String
  pub config_json : List ℕ
  pub is_active : Bool
  pub last_fetched_at : Option ℕ
  pub last_fetch_status : String
  pub last_fetch_message : String
  pub updated_at : ℕ
  pub deleted_at : Option ℕ

abbrev pub run_status_running : String
run_status_running = "running"

abbrev pub run_status_success : String
run_status_success = "success"

abbrev pub run_status_failed : String
run_status_failed = "failed"

pub record CollectionRun : Type 0 where
  pub id : ℕ
  pub source_id : ℕ
  pub status : String
  pub started_at : ℕ
  pub finished_at : Option ℕ
  pub fetched_count : ℕ
  pub inserted_count : ℕ
  pub duplicated_count : ℕ
  pub error_message : String
  pub created_at : ℕ

pub record CollectedItem : Type 0 where
  pub user_id : ℤ
  pub source_id : ℤ
  pub source_type : String
  pub external_id : Option String
  pub title : String
  pub url : Option String
  pub original_url : Option String
  pub author : String
  pub summary : String
  pub content : String
  pub content_hash : String
  pub published_at : Option ℕ

pub record ArticleWriteResult : Type 0 where
  pub inserted_count : ℕ
  pub duplicated_count : ℕ

pub record CollectSourceRequest : Type 0 where
  pub user_id : ℤ
  pub source_id : ℤ

pub record CollectSourceResponse : Type 0 where
  pub run_id : ℕ
  pub source_id : ℕ
  pub status : String
  pub fetched_count : ℕ
  pub inserted_count : ℕ
  pub duplicated_count : ℕ
  pub error_message : String

-- `CollectionObservation`, less the duration
pub record CollectionObservation : Type 0 where
  pub run_id : ℕ
  pub source_id : ℕ
  pub source_type : String
  pub status : String
  pub fetched_count : ℕ
  pub inserted_count : ℕ
  pub duplicated_count : ℕ
  pub error_message : String

pub record Env : Type 0 where
  pub fault : ℕ → Option Err
  pub clock : ℕ → ℕ
  -- `CollectionLock.Acquire`: whether the lock was free
  pub acquire : ℕ → ℕ → Result Bool
  -- `Collector.Collect` of the collector for the source's type
  pub collect : ℕ → Source → Result (List CollectedItem)
  -- the configuration that `Collect` leaves in the source, which it may change in place
  pub left_config : ℕ → Source → List ℕ
  -- what a column of type JSONB keeps of a text
  pub jsonb : List ℕ → List ℕ
  -- the call that gives a lock back: the error of the Redis script, if it has one
  pub release_error : ℕ → ℕ → Option Err
  -- `ArticleWriter.SaveCollectedItems`, on the articles that are stored: what it returns, and the
  -- articles afterwards
  pub save :
      ℕ → List CollectedItem → List CollectedItem → Result ArticleWriteResult × List CollectedItem
  -- `fmt.Sprintf("collection run timed out after %s", d)`
  pub timed_out_text : ℤ → String

-- `acquired` holds the sources whose lock was taken, `tried` those for which the call to give it back
-- was made, `released` those for which that call succeeded, and `invalidated` the users whose cached
-- list of sources was dropped, the oldest first.
pub record World : Type 0 where
  pub tick : ℕ
  pub serial : ℕ
  pub sources : List Source
  pub runs : List CollectionRun
  pub articles : List CollectedItem
  pub acquired : List ℕ
  pub tried : List ℕ
  pub released : List ℕ
  pub invalidated : List ℤ
  pub observed : List CollectionObservation

abbrev pub next_tick : World → World
next_tick w = record w { tick = suc w.tick }

-- A failed transaction undoes its statements.
abbrev pub rollback : World → World → World
rollback before after = record after {
  sources = before.sources;
  runs = before.runs;
  articles = before.articles;
}

module _ (env : Env) where
  -- One database statement, or a commit: it takes effect or fails and changes nothing.
  abbrev pub statement : Proc World (Unit {0})
  statement w = elim (env.fault w.tick) [
    | none ↦ (ok tt, next_tick w)
    | some e ↦ (err e, next_tick w)
  ]

  abbrev pub read_clock : Proc World ℕ
  read_clock w = (ok (env.clock w.tick), next_tick w)
