-- ===== src/CollectionJob/Execution/Row.antt =====
-- internal/module/collectionjob/job_execution.go: the rows of the log, the conditions on them, and
-- what the updates write.
use contentflow.Prelude.{
  leb, if◌then◌else◌, ℤ, pos, ltb_ℤ, ℕ, String, Bool, true, false, ◌&&◌, ◌||◌, Option, none, some,
  str_eq,
}
use contentflow.CollectionJob.Event.{CollectionRequested}
use contentflow.CollectionJob.Env.{JobExecutionModel, JobExecutionStatus}

pub record JobExecution : Type 0 where
  pub id : ℕ
  pub task_id : String
  pub idempotency_key : String
  pub source_id : ℤ
  pub status : JobExecutionStatus
  pub attempt : ℤ
  pub run_id : ℤ
  pub last_error : String
  pub claim_id : String
  pub locked_until : ℕ
  pub created_at : ℕ
  pub updated_at : ℕ

abbrev pub job_execution_run_id : Option ℤ → ℤ
job_execution_run_id none = pos 0
job_execution_run_id (some n) = n

-- `outboxLockedUntil`
abbrev pub locked_until_or_zero : Option ℕ → ℕ
locked_until_or_zero none = 0
locked_until_or_zero (some t) = t

abbrev pub to_execution : JobExecutionModel → JobExecution
to_execution m = record {
  id = m.id;
  task_id = m.task_id;
  idempotency_key = m.idempotency_key;
  source_id = m.source_id;
  status = m.status;
  attempt = m.attempt;
  run_id = job_execution_run_id m.run_id;
  last_error = m.last_error;
  claim_id = m.claim_id;
  locked_until = locked_until_or_zero m.locked_until;
  created_at = m.created_at;
  updated_at = m.updated_at;
}

-- `task_id = ?`
abbrev pub of_task : String → JobExecutionModel → Bool
of_task task_id m = str_eq m.task_id task_id

abbrev is_processing : JobExecutionStatus → Bool
is_processing JobExecutionStatus.processing = true
is_processing _ = false

-- `task_id = ? AND status = 'processing' AND claim_id = ?`
abbrev pub is_claimed_by : String → String → JobExecutionModel → Bool
is_claimed_by task_id claim_id m =
    str_eq m.task_id task_id && is_processing m.status && str_eq m.claim_id claim_id

-- `model.LockedUntil == nil || !model.LockedUntil.After(now)`
abbrev pub lease_over : Option ℕ → ℕ → Bool
lease_over none now = true
lease_over (some until) now = leb until now

unfoldable pub should_process : JobExecutionModel → CollectionRequested → ℕ → Bool
should_process model event now = elim model.status [
  | JobExecutionStatus.succeeded ↦ false
  | JobExecutionStatus.dlq ↦ false
  | JobExecutionStatus.processing ↦
      ltb_ℤ model.attempt event.attempt || lease_over model.locked_until now
  | JobExecutionStatus.failed ↦ ltb_ℤ model.attempt event.attempt
  | JobExecutionStatus.other_status _ ↦ true
]

abbrev pub new_model : CollectionRequested → String → ℕ → ℕ → ℕ → JobExecutionModel
new_model event claim_id now locked_until id = record {
  id = id;
  task_id = event.task_id;
  idempotency_key = event.idempotency_key;
  source_id = event.source_id;
  status = JobExecutionStatus.processing;
  attempt = event.attempt;
  run_id = none;
  last_error = "";
  claim_id = claim_id;
  locked_until = some locked_until;
  created_at = now;
  updated_at = now;
}

abbrev pub take_over : CollectionRequested → String → ℕ → ℕ → JobExecutionModel → JobExecutionModel
take_over event claim_id now locked_until m = record m {
  idempotency_key = event.idempotency_key;
  source_id = event.source_id;
  status = JobExecutionStatus.processing;
  attempt = event.attempt;
  last_error = "";
  claim_id = claim_id;
  locked_until = some locked_until;
  updated_at = now;
}

abbrev pub run_id_if_positive : ℤ → Option ℤ
run_id_if_positive run_id = if ltb_ℤ (pos 0) run_id then some run_id else none

abbrev pub to_succeeded : ℤ → ℕ → JobExecutionModel → JobExecutionModel
to_succeeded run_id now m = record m {
  status = JobExecutionStatus.succeeded;
  run_id = run_id_if_positive run_id;
  last_error = "";
  claim_id = "";
  locked_until = none;
  updated_at = now;
}

abbrev pub to_failed : ℤ → String → ℕ → JobExecutionModel → JobExecutionModel
to_failed attempt text now m = record m {
  status = JobExecutionStatus.failed;
  attempt = attempt;
  last_error = text;
  claim_id = "";
  locked_until = none;
  updated_at = now;
}

abbrev pub to_dlq : String → ℕ → JobExecutionModel → JobExecutionModel
to_dlq text now m = record m {
  status = JobExecutionStatus.dlq;
  last_error = text;
  claim_id = "";
  locked_until = none;
  updated_at = now;
}
