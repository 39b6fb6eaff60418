-- ===== src/CollectionJob/Worker/Failure.antt =====
-- What the worker writes after a failed collection: a report, then a retry or a dead letter.
use contentflow.Prelude.{
  leb, if◌then◌else◌, pos, Sentinel, Err, message, is_error, has_permanent, ok, ℕ, suc, ◌+◌, ◌*◌,
  ◌^◌, ◌<◌, String, ◌≡◌, Bool, ◌||◌, some, List, [], ◌∷◌, ◌++◌, arith,
}
use contentflow.CollectionJob.Event.{
  CollectionRequested, CollectionFailed, is_permanent_error, Payload, Event,
  topic_collection_requested, topic_collection_failed, topic_collection_dlq, CollectionFailed,
  is_permanent_error,
}
use contentflow.CollectionJob.Env.{Env, World}
use contentflow.CollectionJob.Worker.Config.{Worker}
use contentflow.CollectionJob.Worker.{write_json, write_dlq, gives_up, next_event, handle_failed}
use contentflow.CollectionJob.Worker.Retry.{next_event_lem, gives_up_lem}
use contentflow.CollectionJob.Worker.Effects.{create-IsQuiet, failed-IsQuiet, dlq-IsQuiet}

-- `json.Marshal` encodes every payload; it fails only on types that no event has.
module _ (env : Env) (worker : Worker) (encode : Payload → List ℕ)
    (total : (p : Payload) → env.marshal p ≡ some (encode p)) where
  abbrev pub encoded : String → String → Payload → Event
  encoded topic key payload = record { topic = topic; key = key; value = encode payload }

  write_json-ok :
      (topic key : String) (payload : Payload) (w : World)
      → (write_json env worker topic key payload w).0 ≡ ok tt
      → ((write_json env worker topic key payload w).1.written
          ≡ w.written ++ encoded topic key payload ∷ [])
        × ((write_json env worker topic key payload w).1.tick ≡ suc w.tick)
  unfolding write_json
  write_json-ok topic key payload w h = ground (arith, total payload)

  write_dlq-ok :
      (event : CollectionRequested) (cause : Err) (w : World)
      → (write_dlq env worker event cause w).0 ≡ ok tt
      → (write_dlq env worker event cause w).1.written
        ≡ w.written
          ++ encoded topic_collection_dlq event.idempotency_key (Payload.requested event) ∷ []
  unfolding write_dlq
  write_dlq-ok event cause w h = grind (arith, write_json-ok, create-IsQuiet)

  -- the report of a failed attempt
  abbrev pub report : CollectionRequested → Err → ℕ → CollectionFailed
  report event cause failed_at = record {
    task_id = event.task_id;
    source_id = event.source_id;
    attempt = event.attempt;
    error_message = message cause;
    failed_at = failed_at;
    idempotency_key = event.idempotency_key;
    original_requested = event.requested_at;
  }

  -- what follows the report: the request as it came, for the dead letters, or the next attempt
  abbrev pub follow_up : CollectionRequested → Bool → ℕ → ℕ → Event
  follow_up event is_last attempt due =
      if is_last
      then encoded topic_collection_dlq event.idempotency_key (Payload.requested event)
      else encoded topic_collection_requested event.idempotency_key
          (Payload.requested (record event { attempt = pos attempt; next_attempt_at = due }))

  -- the two writes, in the terms of the code
  handled :
      (event : CollectionRequested) (claim_id : String) (cause : Err) (w : World)
      → (handle_failed env worker event claim_id cause w).0 ≡ ok tt
      → (handle_failed env worker event claim_id cause w).1.written
        ≡ (w.written
            ++ encoded topic_collection_failed event.idempotency_key
                (Payload.failed (report event cause (env.clock w.tick)))
              ∷ [])
          ++ (if gives_up env worker event cause
              then encoded topic_collection_dlq event.idempotency_key (Payload.requested event)
              else encoded topic_collection_requested event.idempotency_key
                  (Payload.requested (next_event env worker event (env.clock (suc (suc w.tick))))))
            ∷ []
  unfolding handle_failed
  handled event claim_id cause w h =
      grind (arith, write_json-ok, write_dlq-ok, failed-IsQuiet, dlq-IsQuiet)

  -- When every payload can be encoded, the attempt and the delay of the next attempt fit into 64
  -- bits, and the handling of a failed collection succeeds, it has written two events. The first is
  -- the report of the failure, with the task, the attempt and the text of the error. The second is the
  -- request itself, to the topic of dead letters, if the error is permanent, or the source or its
  -- collector is not there, or the limit of attempts is reached; else it is the request with the next
  -- attempt number, due after the base delay, doubled once for each attempt before.
  pub handle_failed-written :
      (event : CollectionRequested) (claim_id : String) (cause : Err) (attempt limit base : ℕ)
      (w : World)
      → event.attempt ≡ pos attempt
      → worker.max_attempts ≡ pos limit
      → worker.backoff_base ≡ pos base
      → suc attempt < 2 ^ 63
      → base * 2 ^ attempt < 2 ^ 63
      → (handle_failed env worker event claim_id cause w).0 ≡ ok tt
      → (handle_failed env worker event claim_id cause w).1.written
        ≡ (w.written
            ++ encoded topic_collection_failed event.idempotency_key
                (Payload.failed (report event cause (env.clock w.tick)))
              ∷ [])
          ++ follow_up event
              (has_permanent cause
                || is_error cause Sentinel.source_not_accessible
                || is_error cause Sentinel.collector_not_found
                || leb limit (suc attempt))
              (suc attempt)
              (env.clock (suc (suc w.tick)) + base * 2 ^ attempt)
            ∷ []
  unfolding is_permanent_error
  handle_failed-written event claim_id cause attempt limit base w ea el eb small fits h =
      let now = env.clock (suc (suc w.tick)) in
      let written = handled event claim_id cause w h in
      let next = next_event_lem env worker event attempt ea small base now eb fits in
      let last = gives_up_lem env worker event attempt ea small cause limit el in
      ground (arith, rw (next, last) at written)
