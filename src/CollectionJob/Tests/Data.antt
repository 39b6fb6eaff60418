-- ===== src/CollectionJob/Tests/Data.antt =====
-- Worlds and requests that the tests share.
use contentflow.Prelude.{
  ◌==◌, if◌then◌else◌, pos, Err, ok, ℕ, ◌+◌, true, false, ◌||◌, Option, none, some, List, [], ◌∷◌,
}
use contentflow.CollectionJob.Event.{CollectionRequested, Message, Payload}
use contentflow.CollectionJob.Env.{
  Env, World, JobExecutionStatus, JobExecutionModel, OutboxStatus, OutboxEventModel, DlqStatus,
  DlqItemModel, CollectSourceRequest,
}
use contentflow.CollectionJob.Outbox.Dispatcher.{new_outbox_dispatcher, OutboxDispatcher}
use contentflow.CollectionJob.Worker.Config.{new_worker, with_job_execution_repository, Worker}

abbrev pub request : CollectionRequested
request = record {
  task_id = "task-1";
  user_id = pos 5;
  source_id = pos 7;
  idempotency_key = "collection:source:7";
  attempt = pos 0;
  requested_at = 900;
  next_attempt_at = 0;
}

abbrev pub encode : Payload → List ℕ
encode (Payload.requested r) = 1 ∷ []
encode (Payload.completed r) = 2 ∷ []
encode (Payload.failed r) = 3 ∷ []

abbrev pub decode : List ℕ → Option CollectionRequested
decode [] = none
decode (b ∷ bs) = some request

-- nothing fails, and every source has three articles
abbrev pub calm : Env
calm = record {
  fault = λ n. none;
  clock = λ n. 1000 + n;
  random_id = λ n. "claim-a";
  marshal = λ p. some (encode p);
  unmarshal = decode;
  is_locked = λ tick id. false;
  collect_source = λ tick req. ok (
      some (record {
        run_id = pos 11;
        source_id = req.source_id;
        fetched_count = pos 3;
        inserted_count = pos 3;
        duplicated_count = pos 0;
      }));
}

-- the calls 7 and 11 fail: a Kafka write and the statement that marks an event sent
abbrev pub stormy : Env
stormy = record calm {
  fault = λ n. if n == 7 || n == 11 then some (Err.other "connection reset") else none;
}

abbrev pub waiting_row : OutboxEventModel
waiting_row = record {
  id = 1;
  topic = "collection.requested";
  event_key = "collection:source:7";
  payload_json = 1 ∷ [];
  status = OutboxStatus.pending;
  attempts = pos 0;
  next_attempt_at = 950;
  last_error = "";
  claim_id = "";
  locked_until = none;
  created_at = 950;
  updated_at = 950;
  sent_at = none;
}

abbrev pub second_row : OutboxEventModel
second_row = record waiting_row { id = 2; event_key = "collection:source:8" }

-- a row that another dispatcher holds until 5000
abbrev pub held_row : OutboxEventModel
held_row = record waiting_row {
  id = 3;
  event_key = "collection:source:9";
  status = OutboxStatus.processing;
  claim_id = "claim-b";
  locked_until = some 5000;
}

abbrev pub execution_row : JobExecutionModel
execution_row = record {
  id = 1;
  task_id = "task-1";
  idempotency_key = "collection:source:7";
  source_id = pos 7;
  status = JobExecutionStatus.processing;
  attempt = pos 0;
  run_id = none;
  last_error = "";
  claim_id = "claim-b";
  locked_until = some 5000;
  created_at = 950;
  updated_at = 950;
}

abbrev pub finished_row : JobExecutionModel
finished_row = record execution_row {
  status = JobExecutionStatus.succeeded;
  run_id = some (pos 11);
  claim_id = "";
  locked_until = none;
}

abbrev pub dead_letter : DlqItemModel
dead_letter = record {
  id = 1;
  task_id = "task-1";
  user_id = pos 5;
  source_id = pos 7;
  idempotency_key = "collection:source:7";
  attempt = pos 2;
  error_message = "feed unreachable";
  payload_json = 1 ∷ [];
  status = DlqStatus.pending;
  created_at = 960;
  updated_at = 960;
  replayed_at = none;
  handled_at = none;
}

abbrev pub empty_world : World
empty_world = record {
  tick = 0;
  serial = 10;
  executions = [];
  outbox = [];
  dlq_items = [];
  written = [];
  collected = [];
  slept = [];
  committed = [];
  observed = [];
}

abbrev pub outbox_world : World
outbox_world = record empty_world { outbox = waiting_row ∷ second_row ∷ held_row ∷ [] }

abbrev pub busy_world : World
busy_world = record empty_world { executions = execution_row ∷ [] }

abbrev pub finished_world : World
finished_world = record empty_world { executions = finished_row ∷ [] }

abbrev pub dlq_world : World
dlq_world = record empty_world { dlq_items = dead_letter ∷ [] }

abbrev pub incoming : Message
incoming = record { topic = "collection.requested"; key = "collection:source:7"; value = 1 ∷ [] }

abbrev pub dispatcher : OutboxDispatcher
dispatcher = new_outbox_dispatcher []

abbrev pub worker : Worker
worker = new_worker (with_job_execution_repository true ∷ [])

abbrev pub source_seven : CollectSourceRequest
source_seven = record { user_id = pos 5; source_id = pos 7 }
