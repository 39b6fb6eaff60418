-- ===== src/CollectionJob/Worker.antt =====
-- internal/module/collectionjob/worker.go: the consumer of collection requests.
pub mod Config
pub mod Validate
pub mod Effects
pub mod Failure
pub mod Handle
pub mod Retry
pub mod Redelivery
use contentflow.Prelude.{
  leb, if◌then◌else◌, ℤ, pos, negsuc, leb_ℤ, ◌+ℤ◌, wrap64, Sentinel, Err, message, is_error, Result,
  Proc, pure, raise, lift, wrapping, modify, trying, ◌>>=◌, ◌>>◌, ok, err, ℕ, suc, String, Bool,
  true, false, ◌||◌, not, Option, none, some, List, [], ◌∷◌, ◌++◌,
}
use Prim.Native.String.{◌++◌ as join}
use contentflow.CollectionJob.Event.{
  CollectionRequested, Payload, Message, topic_collection_requested, topic_collection_completed,
  topic_collection_failed, topic_collection_dlq, is_zero_time, is_permanent_error,
}
use contentflow.CollectionJob.Env.{
  Env, World, CollectSourceRequest, CollectSourceResponse, Outcome, statement, read_clock,
  random_task_id, write, observe_job,
}
use contentflow.CollectionJob.Backoff.{retry_backoff, add_duration}
use contentflow.CollectionJob.Worker.Config.{
  Worker, validate_message, completed_event, failed_event, delay_until,
}
use contentflow.CollectionJob.Execution.{claim, mark_succeeded, mark_failed, mark_dlq}
use contentflow.CollectionJob.Dlq.{create}

module _ (env : Env) (worker : Worker) where
  -- `writeJSON`
  unfoldable pub write_json : String → String → Payload → Proc World (Unit {0})
  write_json topic key payload = elim (env.marshal payload) [
    | none ↦ raise (Err.wrap (join "marshal " (join topic " event")) (Err.other "json"))
    | some value ↦ do
      written ← trying (write env (record { topic = topic; key = key; value = value }))
      elim written [
        | err e ↦ do
          observe_job worker.has_observer topic Outcome.failure
          raise (Err.wrap (join "write " (join topic " event")) e)
        | ok _ ↦ observe_job worker.has_observer topic Outcome.success
      ]
  ]

  -- `waitUntilNextAttempt`
  unfoldable pub wait_until_next_attempt : CollectionRequested → Proc World (Unit {0})
  wait_until_next_attempt event = if is_zero_time event.next_attempt_at then pure tt else do
    now ← read_clock env
    elim (leb event.next_attempt_at now) [
      | true ↦ pure tt
      | false ↦ do
        modify (λ w. record w { slept = w.slept ++ delay_until event.next_attempt_at now ∷ [] })
        wrapping "wait for next collection attempt" (statement env)
    ]

  -- `claimExecution`
  unfoldable pub claim_execution : CollectionRequested → Proc World (String × Bool)
  claim_execution event = if not worker.has_execution_repo then pure ("", true) else do
    now ← read_clock env
    claim_id ← random_task_id env
    r ←
        wrapping "claim collection job execution"
          (claim env event claim_id now (add_duration now worker.claim_ttl))
    pure (claim_id, r.1)

  -- `markExecutionSucceeded`, `markExecutionFailed` and `markExecutionDLQ`
  unfoldable pub mark_execution_succeeded : String → String → ℤ → Proc World (Unit {0})
  mark_execution_succeeded task_id claim_id run_id =
      if not worker.has_execution_repo then pure tt else do
        now ← read_clock env
        r ←
            wrapping "mark collection job execution succeeded"
              (mark_succeeded env task_id claim_id run_id now)
        pure tt

  unfoldable pub mark_execution_failed : String → String → ℤ → Err → Proc World (Unit {0})
  mark_execution_failed task_id claim_id attempt cause =
      if not worker.has_execution_repo then pure tt else do
        now ← read_clock env
        r ←
            wrapping "mark collection job execution failed"
              (mark_failed env task_id claim_id attempt (message cause) now)
        pure tt

  unfoldable pub mark_execution_dlq : String → String → Err → Proc World (Unit {0})
  mark_execution_dlq task_id claim_id cause = if not worker.has_execution_repo then pure tt else do
    now ← read_clock env
    r ←
        wrapping "mark collection job execution dlq"
          (mark_dlq env task_id claim_id (message cause) now)
    pure tt

  -- `writeDLQ`
  unfoldable pub write_dlq : CollectionRequested → Err → Proc World (Unit {0})
  write_dlq event cause =
      (if not worker.has_dlq_repo then pure tt else do
        now ← read_clock env
        item ← wrapping "create dlq item" (create env event (message cause) now)
        pure tt)
      >> write_json topic_collection_dlq event.idempotency_key (Payload.requested event)

  -- whether a failed attempt is the last one
  abbrev pub gives_up : CollectionRequested → Err → Bool
  gives_up event cause =
      is_permanent_error cause || leb_ℤ worker.max_attempts (wrap64 (event.attempt +ℤ pos 1))

  -- the request for the next attempt
  abbrev pub next_event : CollectionRequested → ℕ → CollectionRequested
  next_event event now =
      let next_attempt = wrap64 (event.attempt +ℤ pos 1) in
      record event {
        attempt = next_attempt;
        next_attempt_at = add_duration now (retry_backoff worker.backoff_base next_attempt);
      }

  abbrev schedule_retry : CollectionRequested → String → Err → Proc World (Unit {0})
  schedule_retry event claim_id cause = do
    now ← read_clock env
    write_json topic_collection_requested event.idempotency_key
        (Payload.requested (next_event event now))
    mark_execution_failed event.task_id claim_id
        (wrap64 ((next_event event now).attempt +ℤ negsuc 0)) cause

  abbrev give_up : CollectionRequested → String → Err → Proc World (Unit {0})
  give_up event claim_id cause =
      write_dlq event cause >> mark_execution_dlq event.task_id claim_id cause

  -- `handleFailed`
  unfoldable pub handle_failed : CollectionRequested → String → Err → Proc World (Unit {0})
  handle_failed event claim_id cause = do
    failed_at ← read_clock env
    write_json topic_collection_failed event.idempotency_key
        (Payload.failed (failed_event event cause failed_at))
    elim (gives_up event cause) [
      | true ↦ give_up event claim_id cause
      | false ↦ schedule_retry event claim_id cause
    ]

  -- the call of the collection service
  abbrev pub collect : CollectionRequested → Proc World (Result (Option CollectSourceResponse))
  collect event w =
      let req : CollectSourceRequest = record {
        user_id = event.user_id;
        source_id = event.source_id;
      } in
      (
        ok (env.collect_source w.tick req),
        record w { tick = suc w.tick; collected = w.collected ++ req ∷ [] },
      )

  -- what follows the collection
  unfoldable pub after_collect :
      CollectionRequested → String → Result (Option CollectSourceResponse) → Proc World (Unit {0})
  after_collect event claim_id (err cause) = handle_failed event claim_id cause
  after_collect event claim_id (ok none) = mark_execution_succeeded event.task_id claim_id (pos 0)
  after_collect event claim_id (ok (some resp)) = do
    completed_at ← read_clock env
    write_json topic_collection_completed event.idempotency_key
        (Payload.completed (completed_event event resp completed_at))
    mark_execution_succeeded event.task_id claim_id resp.run_id

  -- `HandleMessage` once the message has been read and is valid
  unfoldable pub process : CollectionRequested → Proc World (Unit {0})
  process event = do
    wait_until_next_attempt event
    claimed ← claim_execution event
    elim claimed.1 [
      | false ↦ pure tt
      | true ↦ do r ← collect event; after_collect event claimed.0 r
    ]

  -- `HandleMessage`
  unfoldable pub handle_message : Message → Proc World (Unit {0})
  handle_message msg = elim (env.unmarshal msg.value) [
    | none ↦ raise (Err.detail Sentinel.invalid_message "json")
    | some event ↦ lift (validate_message msg event) >> process event
  ]

-- What the reader returns: a message or an error.
pub data Read : Type 0 where
  received : Message → Read
  read_failed : Err → Read

-- whether the loop commits the message after it was handled
abbrev pub commits : Result (Unit {0}) → Bool
commits (ok _) = true
commits (err e) = is_error e Sentinel.invalid_message

module _ (env : Env) (worker : Worker) where
  -- `reader.Commit`
  abbrev commit : Message → Proc World (Unit {0})
  commit msg =
      wrapping "commit collection job"
        (statement env >> modify (λ w. record w { committed = w.committed ++ msg ∷ [] }))

  -- one round of `Run` with a message
  unfoldable pub run_one : Message → Proc World (Unit {0})
  run_one msg = do
    handled ← trying (handle_message env worker msg)
    elim (commits handled) [ true ↦ commit msg | false ↦ pure tt ]

  -- `Run`, on what the reader returns until the model stops looking
  unfoldable pub run : List Read → Proc World (Unit {0})
  run [] = pure tt
  run (read_failed e ∷ reads) =
      if is_error e Sentinel.canceled then pure tt else raise (Err.wrap "read collection job" e)
  run (received msg ∷ reads) = run_one msg >> run reads
