-- ===== src/CollectionJob/Outbox/Producer.antt =====
-- internal/module/collectionjob/outbox.go and producer.go: requests for a collection, through the
-- outbox or straight to Kafka.
use contentflow.Prelude.{
  if◌then◌else◌, ℤ, pos, Err, Proc, pure, raise, wrapping, ◌>>=◌, ◌>>◌, ℕ, String, none, some,
  str_eq,
}
use contentflow.CollectionJob.Event.{CollectionRequested, Payload, topic_collection_requested}
use contentflow.CollectionJob.Env.{
  Env, World, CollectSourceRequest, read_clock, random_task_id, write,
}
use contentflow.CollectionJob.Key.{idempotency_key}
use contentflow.CollectionJob.Outbox.Row.{OutboxEvent, OutboxPayload}
use contentflow.CollectionJob.Outbox.{create}

-- `collector.RequestCollectionResponse`; the status is always "queued".
pub record RequestCollectionResponse : Type 0 where
  pub task_id : String
  pub source_id : ℤ
  pub status : String

abbrev pub new_request : String → CollectSourceRequest → ℕ → CollectionRequested
new_request task_id req now = record {
  task_id = task_id;
  user_id = req.user_id;
  source_id = req.source_id;
  idempotency_key = idempotency_key req.source_id;
  attempt = pos 0;
  requested_at = now;
  next_attempt_at = 0;
}

abbrev pub queued_response : String → CollectSourceRequest → RequestCollectionResponse
queued_response task_id req = record {
  task_id = task_id;
  source_id = req.source_id;
  status = "queued";
}

module _ (env : Env) where
  -- the answer names the task of the stored event, unless that has no name
  abbrev answer : String → CollectSourceRequest → OutboxEvent → Proc World RequestCollectionResponse
  answer task_id req ev = elim (env.unmarshal ev.value) [
    | none ↦ raise (Err.wrap "decode collection requested outbox event" (Err.other "json"))
    | some queued ↦
        pure (queued_response (if str_eq queued.task_id "" then task_id else queued.task_id) req)
  ]

  -- `OutboxProducer.RequestCollection`
  unfoldable pub request_collection : CollectSourceRequest → Proc World RequestCollectionResponse
  request_collection req = do
    task_id ← random_task_id env
    requested_at ← read_clock env
    created_at ← read_clock env
    ev ← wrapping "create collection requested outbox event" (
        create env (record {
          topic = topic_collection_requested;
          key = idempotency_key req.source_id;
          payload = OutboxPayload.json (Payload.requested (new_request task_id req requested_at));
          created_at = created_at;
        }))
    answer task_id req ev

  -- `Producer.RequestCollection`, which writes to Kafka at once
  unfoldable pub request_collection_directly :
      CollectSourceRequest → Proc World RequestCollectionResponse
  request_collection_directly req = do
    task_id ← random_task_id env
    requested_at ← read_clock env
    elim (env.marshal (Payload.requested (new_request task_id req requested_at))) [
      | none ↦ raise (Err.wrap "marshal collection requested event" (Err.other "json"))
      | some value ↦ do
        wrapping "write collection requested event" (
            write env (record {
              topic = topic_collection_requested;
              key = idempotency_key req.source_id;
              value = value;
            }))
        pure (queued_response task_id req)
    ]
