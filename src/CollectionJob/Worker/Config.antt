-- ===== src/CollectionJob/Worker/Config.antt =====
-- internal/module/collectionjob/worker.go: the settings of a worker, the check of a message, and the
-- events that a worker writes.
use contentflow.Prelude.{
  if◌then◌else◌, ℤ, pos, ltb_ℤ, leb_ℤ, is_blank, Sentinel, Err, message, Result, ok, err, ℕ, ◌-◌,
  ◌^◌, min, String, Bool, false, ◌&&◌, not, List, [], ◌∷◌, str_eq,
}
use contentflow.CollectionJob.Event.{
  CollectionRequested, CollectionCompleted, CollectionFailed, Message, topic_collection_requested,
  is_zero_time,
}
use contentflow.CollectionJob.Env.{CollectSourceResponse}

pub record Worker : Type 0 where
  pub has_observer : Bool
  pub has_dlq_repo : Bool
  pub has_execution_repo : Bool
  pub max_attempts : ℤ
  pub backoff_base : ℤ
  pub claim_ttl : ℤ

abbrev pub with_max_attempts : ℤ → Worker → Worker
with_max_attempts n w = if ltb_ℤ (pos 0) n then record w { max_attempts = n } else w

abbrev pub with_retry_backoff : ℤ → Worker → Worker
with_retry_backoff n w = if ltb_ℤ (pos 0) n then record w { backoff_base = n } else w

abbrev pub with_job_observer : Bool → Worker → Worker
with_job_observer b w = record w { has_observer = b }

abbrev pub with_dlq_repository : Bool → Worker → Worker
with_dlq_repository b w = record w { has_dlq_repo = b }

abbrev pub with_job_execution_repository : Bool → Worker → Worker
with_job_execution_repository b w = record w { has_execution_repo = b }

abbrev apply_options : List (Worker → Worker) → Worker → Worker
apply_options [] w = w
apply_options (opt ∷ opts) w = apply_options opts (opt w)

-- `NewWorker`
abbrev pub new_worker : List (Worker → Worker) → Worker
new_worker opts = apply_options opts (record {
  has_observer = false;
  has_dlq_repo = false;
  has_execution_repo = false;
  max_attempts = pos 3;
  backoff_base = pos 60_000_000_000;
  claim_ttl = pos 600_000_000_000;
})

abbrev invalid : String → Result (Unit {0})
invalid text = err (Err.detail Sentinel.invalid_message text)

-- `validateCollectionRequestedMessage`; the text of the first error leaves out the quoted topic.
unfoldable pub validate_message : Message → CollectionRequested → Result (Unit {0})
validate_message msg event =
    if not (str_eq msg.topic "") && not (str_eq msg.topic topic_collection_requested)
    then invalid "unexpected topic"
    else if is_blank event.task_id
    then invalid "missing task_id"
    else if leb_ℤ event.user_id (pos 0)
    then invalid "invalid user_id"
    else if leb_ℤ event.source_id (pos 0)
    then invalid "invalid source_id"
    else if is_blank event.idempotency_key
    then invalid "missing idempotency_key"
    else if ltb_ℤ event.attempt (pos 0)
    then invalid "invalid attempt"
    else if is_zero_time event.requested_at
    then invalid "missing requested_at"
    else if not (str_eq msg.key "") && not (str_eq msg.key event.idempotency_key)
    then invalid "message key does not match idempotency_key"
    else ok tt

abbrev pub completed_event : CollectionRequested → CollectSourceResponse → ℕ → CollectionCompleted
completed_event event resp now = record {
  task_id = event.task_id;
  source_id = event.source_id;
  run_id = resp.run_id;
  fetched_count = resp.fetched_count;
  inserted_count = resp.inserted_count;
  duplicated_count = resp.duplicated_count;
  completed_at = now;
  idempotency_key = event.idempotency_key;
  original_requested = event.requested_at;
}

abbrev pub failed_event : CollectionRequested → Err → ℕ → CollectionFailed
failed_event event cause now = record {
  task_id = event.task_id;
  source_id = event.source_id;
  attempt = event.attempt;
  error_message = message cause;
  failed_at = now;
  idempotency_key = event.idempotency_key;
  original_requested = event.requested_at;
}

-- `time.Duration` is 64 bits wide, and `Sub` keeps to its largest value.
abbrev pub delay_until : ℕ → ℕ → ℕ
delay_until next now = min (next - now) (2 ^ 63 - 1)
