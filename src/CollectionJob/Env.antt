-- ===== src/CollectionJob/Env.antt =====
-- The world of the collection jobs: the tables, the Kafka topics, and what comes from outside.
-- Everything outside the repository answers by the number of the call (`tick`): whether a database
-- statement or a Kafka write fails, what the clock shows, which random ids come, what a collection
-- returns, and how JSON reads. So a theorem for every `Env` holds for every behaviour of these.
use contentflow.Prelude.{
  if◌then◌else◌, ℤ, Err, Result, Proc, ok, err, ℕ, suc, String, Bool, Option, none, some, List, [],
  ◌∷◌, ◌++◌,
}
use contentflow.CollectionJob.Event.{Message, Event, CollectionRequested, Payload}

-- `collector.CollectSourceResponse`, less the fields that the worker does not read
pub record CollectSourceResponse : Type 0 where
  pub run_id : ℤ
  pub source_id : ℤ
  pub fetched_count : ℤ
  pub inserted_count : ℤ
  pub duplicated_count : ℤ

pub record CollectSourceRequest : Type 0 where
  pub user_id : ℤ
  pub source_id : ℤ

pub record Env : Type 0 where
  -- the error of the call with this number, if it fails
  pub fault : ℕ → Option Err
  pub clock : ℕ → ℕ
  -- `randomTaskID`
  pub random_id : ℕ → String
  -- `json.Marshal` and `json.Unmarshal`
  pub marshal : Payload → Option (List ℕ)
  pub unmarshal : List ℕ → Option CollectionRequested
  -- whether another transaction holds the row with this id (`FOR UPDATE SKIP LOCKED`)
  pub is_locked : ℕ → ℕ → Bool
  -- `CollectionService.CollectSource`: a nil response without an error is `ok none`
  pub collect_source : ℕ → CollectSourceRequest → Result (Option CollectSourceResponse)

pub data JobExecutionStatus : Type 0 where
  processing succeeded failed dlq : JobExecutionStatus
  other_status : String → JobExecutionStatus

pub record JobExecutionModel : Type 0 where
  pub id : ℕ
  pub task_id : String
  pub idempotency_key : String
  pub source_id : ℤ
  pub status : JobExecutionStatus
  pub attempt : ℤ
  pub run_id : Option ℤ
  pub last_error : String
  pub claim_id : String
  pub locked_until : Option ℕ
  pub created_at : ℕ
  pub updated_at : ℕ

pub data OutboxStatus : Type 0 where
  pending processing sent failed deduplicated : OutboxStatus

pub record OutboxEventModel : Type 0 where
  pub id : ℕ
  pub topic : String
  pub event_key : String
  pub payload_json : List ℕ
  pub status : OutboxStatus
  pub attempts : ℤ
  pub next_attempt_at : ℕ
  pub last_error : String
  pub claim_id : String
  pub locked_until : Option ℕ
  pub created_at : ℕ
  pub updated_at : ℕ
  pub sent_at : Option ℕ

pub data DlqStatus : Type 0 where
  pending replayed handled : DlqStatus

pub record DlqItemModel : Type 0 where
  pub id : ℕ
  pub task_id : String
  pub user_id : ℤ
  pub source_id : ℤ
  pub idempotency_key : String
  pub attempt : ℤ
  pub error_message : String
  pub payload_json : List ℕ
  pub status : DlqStatus
  pub created_at : ℕ
  pub updated_at : ℕ
  pub replayed_at : Option ℕ
  pub handled_at : Option ℕ

pub data Outcome : Type 0 where
  success failure : Outcome

pub record JobObservation : Type 0 where
  pub topic : String
  pub status : Outcome

-- `serial` numbers the rows that are inserted; `written` holds the events in Kafka, `collected` the
-- requests made to the collection service, `slept` the delays waited, and `committed` the messages
-- that were committed, the oldest first.
pub record World : Type 0 where
  pub tick : ℕ
  pub serial : ℕ
  pub executions : List JobExecutionModel
  pub outbox : List OutboxEventModel
  pub dlq_items : List DlqItemModel
  pub written : List Event
  pub collected : List CollectSourceRequest
  pub slept : List ℕ
  pub committed : List Message
  pub observed : List JobObservation

abbrev pub next_tick : World → World
next_tick w = record w { tick = suc w.tick }

-- A failed transaction undoes its statements, and nothing else.
abbrev pub rollback : World → World → World
rollback before after = record after {
  executions = before.executions;
  outbox = before.outbox;
  dlq_items = before.dlq_items;
}

module _ (env : Env) where
  -- One database statement, or a commit: it takes effect or fails and changes nothing.
  abbrev pub statement : Proc World (Unit {0})
  statement w = elim (env.fault w.tick) [
    | none ↦ (ok tt, next_tick w)
    | some e ↦ (err e, next_tick w)
  ]

  -- A reading of the clock
  abbrev pub read_clock : Proc World ℕ
  read_clock w = (ok (env.clock w.tick), next_tick w)

  abbrev pub random_task_id : Proc World String
  random_task_id w = (ok (env.random_id w.tick), next_tick w)

  -- `EventWriter.Write`
  abbrev pub write : Event → Proc World (Unit {0})
  write event w = elim (env.fault w.tick) [
    | none ↦ (ok tt, record w { tick = suc w.tick; written = w.written ++ event ∷ [] })
    | some e ↦ (err e, next_tick w)
  ]

-- `observeJob`; without an observer nothing is recorded.
abbrev pub observe_job : Bool → String → Outcome → Proc World (Unit {0})
observe_job has_observer topic status w = (
  ok tt,
  if has_observer
      then record w { observed = w.observed ++ record { topic = topic; status = status } ∷ [] }
      else w,
)
