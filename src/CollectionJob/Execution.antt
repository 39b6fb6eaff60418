-- ===== src/CollectionJob/Execution.antt =====
-- internal/module/collectionjob/job_execution.go: the log of executions, one row for each task,
-- with a lease for the worker that holds the task.
pub mod Row
pub mod Lease
pub mod History
use contentflow.Prelude.{
  ◌==◌, if◌then◌else◌, ℤ, Sentinel, Err, Proc, pure, raise, gets, wrapping, modify, ◌>>=◌, ◌>>◌,
  transaction, ok, first_where, count_where, update_where, ℕ, suc, String, Bool, true, false, not,
  Option, none, some, [], ◌∷◌, ◌++◌, str_eq,
}
use contentflow.CollectionJob.Execution.Row.{
  of_task, JobExecution, to_execution, is_claimed_by, should_process, new_model, take_over,
  to_succeeded, to_failed, to_dlq,
}
use contentflow.CollectionJob.Event.{CollectionRequested}
use contentflow.CollectionJob.Env.{Env, World, rollback, statement, JobExecutionModel}

-- `INSERT ... ON CONFLICT DO NOTHING`: `task_id` is unique (migration 000008)
abbrev insert_new : (ℕ → JobExecutionModel) → String → World → Option JobExecutionModel × World
insert_new model task_id w = elim (first_where (of_task task_id) w.executions) [
  | some _ ↦ (none, w)
  | none ↦ (
    some (model w.serial),
    record w { serial = suc w.serial; executions = w.executions ++ model w.serial ∷ [] },
  )
]

module _ (env : Env) where
  -- `First(&claimed, "task_id = ?", taskID)`
  abbrev first_of_task : String → Proc World JobExecutionModel
  first_of_task task_id = do
    statement env
    found ← gets (λ w. first_where (of_task task_id) w.executions)
    elim found [ none ↦ raise (Err.sentinel Sentinel.record_not_found) | some m ↦ pure m ]

  abbrev create_claim : CollectionRequested → String → ℕ → ℕ → Proc World (Option JobExecutionModel)
  create_claim event claim_id now locked_until = do
    statement env
    λ w.
        let (r, w') = insert_new (new_model event claim_id now locked_until) event.task_id w in
        (ok r, w')

  abbrev update_claim : CollectionRequested → String → ℕ → ℕ → Proc World (Unit {0})
  update_claim event claim_id now locked_until = do
    statement env
    modify (λ w. record w {
      executions =
          update_where (of_task event.task_id) (take_over event claim_id now locked_until)
            w.executions;
    })

  -- the rest of the transaction once a row of the task is found
  take_lease :
      CollectionRequested
      → String
      → ℕ
      → ℕ
      → JobExecutionModel
      → Proc World (JobExecutionModel × Bool)
  take_lease event claim_id now locked_until claimed =
      if not (should_process claimed event now) then pure (claimed, false) else do
        wrapping "update job execution claim" (update_claim event claim_id now locked_until)
        m ← first_of_task event.task_id
        pure (m, true)

  claim_in_tx : CollectionRequested → String → ℕ → ℕ → Proc World (JobExecutionModel × Bool)
  unfolding take_lease
  claim_in_tx event claim_id now locked_until = do
    created ← wrapping "create job execution claim" (create_claim event claim_id now locked_until)
    elim created [
      | some model ↦ pure (model, true)
      | none ↦ do
        claimed ← wrapping "find job execution claim" (first_of_task event.task_id)
        take_lease event claim_id now locked_until claimed
    ]

  -- `GormJobExecutionRepository.Claim`
  unfoldable pub claim : CollectionRequested → String → ℕ → ℕ → Proc World (JobExecution × Bool)
  unfolding claim_in_tx
  claim event claim_id now locked_until =
      if str_eq event.task_id ""
      then raise (Err.other "claim job execution: empty task id")
      else if str_eq claim_id ""
      then raise (Err.other "claim job execution: empty claim id")
      else do
        r ←
            transaction rollback
              (do r ← claim_in_tx event claim_id now locked_until; statement env; pure r)
        pure (to_execution r.0, r.1)

  -- `updateClaimed`
  unfoldable pub update_claimed :
      String → String → (JobExecutionModel → JobExecutionModel) → Proc World JobExecution
  update_claimed task_id claim_id updates = do
    wrapping "update job execution" (statement env)
    affected ← gets (λ w. count_where (is_claimed_by task_id claim_id) w.executions)
    modify (λ w. record w {
      executions = update_where (is_claimed_by task_id claim_id) updates w.executions;
    })
    elim (affected == 0) [
      | true ↦ raise (Err.sentinel Sentinel.job_execution_claim_lost)
      | false ↦ do m ← wrapping "find job execution" (first_of_task task_id); pure (to_execution m)
    ]

module _ (env : Env) where
  unfoldable pub mark_succeeded : String → String → ℤ → ℕ → Proc World JobExecution
  unfolding update_claimed
  mark_succeeded task_id claim_id run_id now =
      update_claimed env task_id claim_id (to_succeeded run_id now)

  unfoldable pub mark_failed : String → String → ℤ → String → ℕ → Proc World JobExecution
  unfolding update_claimed
  mark_failed task_id claim_id attempt text now =
      update_claimed env task_id claim_id (to_failed attempt text now)

  unfoldable pub mark_dlq : String → String → String → ℕ → Proc World JobExecution
  unfolding update_claimed
  mark_dlq task_id claim_id text now = update_claimed env task_id claim_id (to_dlq text now)
