-- ===== src/CollectionJob/Worker/Handle.antt =====
-- Deliveries that collect nothing.
use contentflow.Prelude.{
  Option-cases, is_error, Result, Result-cases, ok, err, suc, String, ◌≡◌, inl, inr, Bool, true,
  false, none, some, [], ◌∷◌, ◌++◌, arith,
}
use contentflow.CollectionJob.Event.{CollectionRequested, Message}
use contentflow.CollectionJob.Env.{Env, World, JobExecutionModel, next_tick}
use contentflow.CollectionJob.Execution.Lease.{row, claim-leased}
use contentflow.CollectionJob.Execution.History.{is_final, final-should_process}
use contentflow.CollectionJob.Backoff.{add_duration}
use contentflow.CollectionJob.Worker.Validate.{IsWellFormed, validate_message_iff}
use contentflow.CollectionJob.Worker.Config.{validate_message, Worker, validate_message}
use contentflow.CollectionJob.Worker.{
  wait_until_next_attempt, claim_execution, process, handle_message, commits, run_one,
}
use contentflow.CollectionJob.Execution.Row.{should_process}
use contentflow.CollectionJob.Worker.Effects.{IsQuiet, wait-IsQuiet, claim_execution-IsQuiet}

wait-executions :
    (env : Env) (worker : Worker) (event : CollectionRequested) (w : World)
    → (wait_until_next_attempt env worker event w).1.executions ≡ w.executions
unfolding wait_until_next_attempt
wait-executions env worker event w = ground arith

-- whether the worker went on to collect
abbrev went_on : Result (String × Bool) → Bool
went_on (ok (claim_id, yes_or_no)) = yes_or_no
went_on (err e) = false

-- a claim of a task whose row is not to be processed
claim_execution-refused :
    (env : Env) (worker : Worker) (event : CollectionRequested) (m : JobExecutionModel) (w : World)
    → worker.has_execution_repo ≡ true
    → row event.task_id w ≡ some m
    → should_process m event (env.clock w.tick) ≡ false
    → went_on (claim_execution env worker event w).0 ≡ false
unfolding claim_execution
claim_execution-refused env worker event m w has found refused =
    let now = env.clock w.tick in
    let id = env.random_id (suc w.tick) in
    ground (
      arith,
      claim-leased env event id now (add_duration now worker.claim_ttl) (next_tick (next_tick w)) m
          found refused,
    )

-- A worker that does not go on after the claim collects and writes nothing.
process_refused :
    (env : Env) (worker : Worker) (event : CollectionRequested) (w : World)
    → went_on (claim_execution env worker event (wait_until_next_attempt env worker event w).1).0
      ≡ false
    → IsQuiet w (process env worker event w).1
unfolding process
process_refused env worker event w refused = ground (
  arith,
  wait-IsQuiet env worker event w,
  claim_execution-IsQuiet env worker event (wait_until_next_attempt env worker event w).1,
)

-- A message for a task that has succeeded or gone to the dead letters is not collected again:
-- with an execution log, whatever fails, the worker writes nothing and collects nothing.
pub process-final :
    (env : Env) (worker : Worker) (event : CollectionRequested) (m : JobExecutionModel) (w : World)
    → worker.has_execution_repo ≡ true
    → row event.task_id w ≡ some m
    → is_final m.status ≡ true
    → IsQuiet w (process env worker event w).1
process-final env worker event m w has found final =
    let w1 = (wait_until_next_attempt env worker event w).1 in
    process_refused env worker event w (
      claim_execution-refused env worker event m w1 has
        (rw (wait-executions env worker event w) found)
        (final-should_process env event.task_id m final event (env.clock w1.tick)))

handle_message-malformed :
    (env : Env) (worker : Worker) (msg : Message) (w : World)
    → ((event : CollectionRequested)
        → env.unmarshal msg.value ≡ some event
        → IsWellFormed msg event
        → ⊥)
    → (commits (handle_message env worker msg w).0 ≡ true)
      × ((handle_message env worker msg w).1 ≡ w)
unfolding handle_message is_error
handle_message-malformed env worker msg w bad = elim (Option-cases (env.unmarshal msg.value)) [
  | inl unread ↦ (ground arith, ground arith)
  | inr (event, read) ↦ elim (Result-cases (validate_message msg event)) [
    | inl (u, valid) ↦
        absurd (bad event read ((validate_message_iff msg event).0.0 (ground (arith, valid))))
    | inr (e, invalid) ↦
        let told = (validate_message_iff msg event).1 (λ valid. ground arith) in
        (ground (arith, told), ground arith)
  ]
]

-- A message that cannot be decoded, or whose request is not well formed, is committed, and nothing
-- else happens: no row of a task changes, nothing is collected and nothing is written. It is assumed
-- that the commit does not fail.
pub run_one-malformed :
    (env : Env) (worker : Worker) (msg : Message) (w : World)
    → ((event : CollectionRequested)
        → env.unmarshal msg.value ≡ some event
        → IsWellFormed msg event
        → ⊥)
    → env.fault w.tick ≡ none
    → ((run_one env worker msg w).0 ≡ ok tt)
      × ((run_one env worker msg w).1.committed ≡ w.committed ++ msg ∷ [])
      × ((run_one env worker msg w).1.executions ≡ w.executions)
      × ((run_one env worker msg w).1.collected ≡ w.collected)
      × ((run_one env worker msg w).1.written ≡ w.written)
unfolding run_one
run_one-malformed env worker msg w bad quiet =
    let (kept, same) = handle_message-malformed env worker msg w bad in
    (
      ground (arith, kept, same, quiet),
      ground (arith, kept, same, quiet),
      ground (arith, kept, same, quiet),
      ground (arith, kept, same, quiet),
      ground (arith, kept, same, quiet),
    )
