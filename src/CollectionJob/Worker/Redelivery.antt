-- ===== src/CollectionJob/Worker/Redelivery.antt =====
-- A message that comes again while the lease of its first delivery runs.
use contentflow.Prelude.{
  ◌≤ℤ◌, ok, ℕ, suc, ◌<◌, String, ◌≡◌, refl, ap, ◌∙◌, true, false, none, some, [], ◌∷◌, ◌++◌, arith,
  str_eq,
}
use contentflow.CollectionJob.Event.{CollectionRequested, Message}
use contentflow.CollectionJob.Env.{Env, World, JobExecutionModel, JobExecutionStatus, next_tick}
use contentflow.CollectionJob.Execution.Row.{should_process, to_execution}
use contentflow.CollectionJob.Execution.Lease.{row, claim-leased}
use contentflow.CollectionJob.Execution.{claim}
use contentflow.CollectionJob.Backoff.{add_duration}
use contentflow.CollectionJob.Worker.Config.{Worker, validate_message}
use contentflow.CollectionJob.Worker.Effects.{claim_execution-IsQuiet}
use contentflow.CollectionJob.Worker.{
  run_one, wait_until_next_attempt, claim_execution, process, handle_message,
}

-- without faults the claim of a row that is not to be processed returns and is not granted
claim-idle :
    (env : Env) (event : CollectionRequested) (claim_id : String) (now until : ℕ) (w : World)
    (m : JobExecutionModel)
    → ((n : ℕ) → env.fault n ≡ none)
    → str_eq event.task_id "" ≡ false
    → str_eq claim_id "" ≡ false
    → row event.task_id w ≡ some m
    → should_process m event now ≡ false
    → (claim env event claim_id now until w).0 ≡ ok (to_execution m, false)
unfolding claim
claim-idle env event claim_id now until w m quiet named id found busy =
    ground (arith, quiet w.tick, quiet (suc w.tick), quiet (suc (suc w.tick)))

claim-leased_row :
    (env : Env) (event : CollectionRequested) (claim_id : String) (now until : ℕ) (w : World)
    (m : JobExecutionModel)
    → row event.task_id w ≡ some m
    → should_process m event now ≡ false
    → row event.task_id (claim env event claim_id now until w).1 ≡ some m
claim-leased_row env event claim_id now until w m found busy =
    rw (claim-leased env event claim_id now until w m found busy).1 found

-- the lease runs
leased :
    (m : JobExecutionModel) (event : CollectionRequested) (now until : ℕ)
    → m.status ≡ JobExecutionStatus.processing
    → m.locked_until ≡ some until
    → event.attempt ≤ℤ m.attempt
    → now < until
    → should_process m event now ≡ false
unfolding should_process
leased m event now until working locked le early = ground arith

-- the steps of the handler around a claim that is not granted
process_not_granted :
    (env : Env) (worker : Worker) (event : CollectionRequested) (id : String) (w : World)
    → event.next_attempt_at ≡ 0
    → (claim_execution env worker event w).0 ≡ ok (id, false)
    → process env worker event w ≡ (ok tt, (claim_execution env worker event w).1)
unfolding process wait_until_next_attempt
process_not_granted env worker event id w at_once idle = ground arith

handle_valid :
    (env : Env) (worker : Worker) (msg : Message) (event : CollectionRequested) (w : World)
    → env.unmarshal msg.value ≡ some event
    → validate_message msg event ≡ ok tt
    → handle_message env worker msg w ≡ process env worker event w
unfolding handle_message
handle_valid env worker msg event w decoded valid = ground arith

run_one-handled :
    (env : Env) (worker : Worker) (msg : Message) (w w' : World)
    → handle_message env worker msg w ≡ (ok tt, w')
    → env.fault w'.tick ≡ none
    → run_one env worker msg w
      ≡ (ok tt, record w' { tick = suc w'.tick; committed = w'.committed ++ msg ∷ [] })
unfolding run_one
run_one-handled env worker msg w w' handled fine = ground arith

claim_execution-idle :
    (env : Env) (worker : Worker) (event : CollectionRequested) (m : JobExecutionModel) (w : World)
    → ((n : ℕ) → env.fault n ≡ none)
    → ((n : ℕ) → str_eq (env.random_id n) "" ≡ false)
    → str_eq event.task_id "" ≡ false
    → worker.has_execution_repo ≡ true
    → row event.task_id w ≡ some m
    → should_process m event (env.clock w.tick) ≡ false
    → ((claim_execution env worker event w).0 ≡ ok (env.random_id (suc w.tick), false))
      × (row event.task_id (claim_execution env worker event w).1 ≡ some m)
unfolding claim_execution
claim_execution-idle env worker event m w quiet ids named has found busy =
    let now = env.clock w.tick in
    let id = env.random_id (suc w.tick) in
    let w' = next_tick (next_tick w) in
    let end = add_duration now worker.claim_ttl in
    ground (
      arith,
      claim-idle env event id now end w' m quiet named (ids (suc w.tick)) found busy,
      claim-leased_row env event id now end w' m found busy,
    )

-- When a worker has died in the middle of a job, its message is delivered again. If that happens
-- before the lease of the dead worker is over, then with nothing failing the message is committed
-- without a collection, and the row of the task stays in processing.
pub redelivery_committed :
    (env : Env) (worker : Worker) (msg : Message) (event : CollectionRequested)
    (m : JobExecutionModel) (until : ℕ) (w : World)
    → ((n : ℕ) → env.fault n ≡ none)
    → ((n : ℕ) → str_eq (env.random_id n) "" ≡ false)
    → env.unmarshal msg.value ≡ some event
    → validate_message msg event ≡ ok tt
    → event.next_attempt_at ≡ 0
    → str_eq event.task_id "" ≡ false
    → worker.has_execution_repo ≡ true
    → row event.task_id w ≡ some m
    → m.status ≡ JobExecutionStatus.processing
    → m.locked_until ≡ some until
    → event.attempt ≤ℤ m.attempt
    → env.clock w.tick < until
    → let (r, w') = run_one env worker msg w in
      (r ≡ ok tt)
      × (w'.committed ≡ w.committed ++ msg ∷ [])
      × (w'.collected ≡ w.collected)
      × (row event.task_id w' ≡ some m)
redelivery_committed env worker msg event m until w quiet ids decoded valid at_once named has found
      working locked le early =
    let busy = leased m event (env.clock w.tick) until working locked le early in
    let w' = (claim_execution env worker event w).1 in
    let idle = claim_execution-idle env worker event m w quiet ids named has found busy in
    let handled =
      handle_valid env worker msg event w decoded valid
      ∙ process_not_granted env worker event (env.random_id (suc w.tick)) w at_once idle.0 in
    let same = claim_execution-IsQuiet env worker event w in
    rw (run_one-handled env worker msg w w' handled (quiet w'.tick))
      (refl, ap (λ ms. ms ++ msg ∷ []) same.committed, same.collected, idle.1)
