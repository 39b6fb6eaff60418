-- ===== src/CollectionJob/Event.antt =====
-- internal/module/collectionjob/event.go and errors.go: topics, events and permanent errors.
-- A `time.Time` is the number of nanoseconds since Go's zero time, so 0 is `time.Time{}`.
use contentflow.Prelude.{
  ◌==◌, ℤ, Sentinel, Err, is_error, has_permanent, ℕ, String, Bool, ◌||◌, Option, none, some, List,
}

abbrev pub topic_collection_requested : String
topic_collection_requested = "collection.requested"

abbrev pub topic_collection_completed : String
topic_collection_completed = "collection.completed"

abbrev pub topic_collection_failed : String
topic_collection_failed = "collection.failed"

abbrev pub topic_collection_dlq : String
topic_collection_dlq = "collection.dlq"

pub record Event : Type 0 where
  pub topic : String
  pub key : String
  pub value : List ℕ

pub record Message : Type 0 where
  pub topic : String
  pub key : String
  pub value : List ℕ

pub record CollectionRequested : Type 0 where
  pub task_id : String
  pub user_id : ℤ
  pub source_id : ℤ
  pub idempotency_key : String
  pub attempt : ℤ
  pub requested_at : ℕ
  pub next_attempt_at : ℕ

pub record CollectionCompleted : Type 0 where
  pub task_id : String
  pub source_id : ℤ
  pub run_id : ℤ
  pub fetched_count : ℤ
  pub inserted_count : ℤ
  pub duplicated_count : ℤ
  pub completed_at : ℕ
  pub idempotency_key : String
  pub original_requested : ℕ

pub record CollectionFailed : Type 0 where
  pub task_id : String
  pub source_id : ℤ
  pub attempt : ℤ
  pub error_message : String
  pub failed_at : ℕ
  pub idempotency_key : String
  pub original_requested : ℕ

-- What the code hands to `json.Marshal`.
pub data Payload : Type 0 where
  requested : CollectionRequested → Payload
  completed : CollectionCompleted → Payload
  failed : CollectionFailed → Payload

abbrev pub is_zero_time : ℕ → Bool
is_zero_time t = t == 0

-- `PermanentError`, on an `error` that may be nil
unfoldable pub permanent_error : Option Err → Option Err
permanent_error none = none
permanent_error (some e) = some (Err.permanent e)

-- `RetryableError`
unfoldable pub retryable_error : Option Err → Option Err
retryable_error none = none
retryable_error (some e) = some (Err.wrap "retryable collection job error" e)

unfoldable pub is_permanent_error : Err → Bool
is_permanent_error e =
    has_permanent e
    || is_error e Sentinel.source_not_accessible
    || is_error e Sentinel.collector_not_found
