-- ===== src/CollectionJob/Worker/Effects.antt =====
-- What the parts of the worker leave alone: only `write_json` writes to Kafka, and only the call of
-- the collection service collects.
use contentflow.Prelude.{ℤ, pos, Err, Result, ok, err, ℕ, String, ◌≡◌, Option, none, some, arith}
use contentflow.CollectionJob.Event.{Message, Payload, CollectionRequested}
use contentflow.CollectionJob.Env.{Env, World, JobExecutionModel, CollectSourceResponse}
use contentflow.CollectionJob.Execution.{
  claim, update_claimed, mark_succeeded, mark_failed, mark_dlq,
}
use contentflow.CollectionJob.Dlq
use contentflow.CollectionJob.Worker.Config.{Worker}
use contentflow.CollectionJob.Worker.{
  wait_until_next_attempt, claim_execution, mark_execution_succeeded, mark_execution_failed,
  mark_execution_dlq, write_json, write_dlq, handle_failed, after_collect, process, handle_message,
}

-- nothing was written and nothing collected
pub record IsQuiet (w w' : World) : Type 0 where
  pub written : w'.written ≡ w.written
  pub collected : w'.collected ≡ w.collected
  pub committed : w'.committed ≡ w.committed

pub claim-IsQuiet :
    (env : Env) (event : CollectionRequested) (claim_id : String) (now until : ℕ) (w : World)
    → IsQuiet w (claim env event claim_id now until w).1
unfolding claim
claim-IsQuiet env event claim_id now until w = ground arith

update_claimed-IsQuiet :
    (env : Env) (task_id claim_id : String) (updates : JobExecutionModel → JobExecutionModel)
    (w : World)
    → IsQuiet w (update_claimed env task_id claim_id updates w).1
unfolding update_claimed
update_claimed-IsQuiet env task_id claim_id updates w = ground arith

pub create-IsQuiet :
    (env : Env) (event : CollectionRequested) (text : String) (at : ℕ) (w : World)
    → IsQuiet w (Dlq.create env event text at w).1
unfolding Dlq.create
create-IsQuiet env event text at w = ground arith

module _ (env : Env) (worker : Worker) where
  pub wait-IsQuiet :
      (event : CollectionRequested) (w : World)
      → IsQuiet w (wait_until_next_attempt env worker event w).1
  unfolding wait_until_next_attempt
  wait-IsQuiet event w = ground arith

  pub claim_execution-IsQuiet :
      (event : CollectionRequested) (w : World) → IsQuiet w (claim_execution env worker event w).1
  unfolding claim_execution
  claim_execution-IsQuiet event w = grind (arith, claim-IsQuiet)

  pub succeeded-IsQuiet :
      (task_id claim_id : String) (run_id : ℤ) (w : World)
      → IsQuiet w (mark_execution_succeeded env worker task_id claim_id run_id w).1
  unfolding mark_execution_succeeded mark_succeeded
  succeeded-IsQuiet task_id claim_id run_id w = grind (arith, update_claimed-IsQuiet)

  pub failed-IsQuiet :
      (task_id claim_id : String) (attempt : ℤ) (cause : Err) (w : World)
      → IsQuiet w (mark_execution_failed env worker task_id claim_id attempt cause w).1
  unfolding mark_execution_failed mark_failed
  failed-IsQuiet task_id claim_id attempt cause w = grind (arith, update_claimed-IsQuiet)

  pub dlq-IsQuiet :
      (task_id claim_id : String) (cause : Err) (w : World)
      → IsQuiet w (mark_execution_dlq env worker task_id claim_id cause w).1
  unfolding mark_execution_dlq mark_dlq
  dlq-IsQuiet task_id claim_id cause w = grind (arith, update_claimed-IsQuiet)

  -- the handler commits nothing
  write_json-committed :
      (topic key : String) (payload : Payload) (w : World)
      → (write_json env worker topic key payload w).1.committed ≡ w.committed
  unfolding write_json
  write_json-committed topic key payload w = ground arith

  write_dlq-committed :
      (event : CollectionRequested) (cause : Err) (w : World)
      → (write_dlq env worker event cause w).1.committed ≡ w.committed
  unfolding write_dlq
  write_dlq-committed event cause w = grind (arith, write_json-committed, create-IsQuiet)

  handle_failed-committed :
      (event : CollectionRequested) (claim_id : String) (cause : Err) (w : World)
      → (handle_failed env worker event claim_id cause w).1.committed ≡ w.committed
  unfolding handle_failed
  handle_failed-committed event claim_id cause w =
      grind (arith, write_json-committed, write_dlq-committed, failed-IsQuiet, dlq-IsQuiet)

  pub after_collect-committed :
      (event : CollectionRequested) (claim_id : String) (r : Result (Option CollectSourceResponse))
      (w : World)
      → (after_collect env worker event claim_id r w).1.committed ≡ w.committed
  unfolding after_collect
  after_collect-committed event claim_id (err cause) w =
      handle_failed-committed event claim_id cause w
  after_collect-committed event claim_id (ok none) w =
      (succeeded-IsQuiet event.task_id claim_id (pos 0) w).committed
  after_collect-committed event claim_id (ok (some resp)) w =
      grind (arith, write_json-committed, succeeded-IsQuiet)

  process-committed :
      (event : CollectionRequested) (w : World)
      → (process env worker event w).1.committed ≡ w.committed
  unfolding process
  process-committed event w =
      grind (arith, wait-IsQuiet, claim_execution-IsQuiet, after_collect-committed)

  pub handle_message-committed :
      (msg : Message) (w : World) → (handle_message env worker msg w).1.committed ≡ w.committed
  unfolding handle_message
  handle_message-committed msg w = grind (arith, process-committed)
