-- ===== src/CollectionJob/Execution/History.antt =====
-- What holds of the log of executions after any sequence of its operations.
use contentflow.Prelude.{
  Bool-cases, ℤ, first_where-update_where, first_where_hit, first_where-append, ℕ, String, ◌≡◌,
  refl, inl, inr, Bool, true, false, some, List, [], ◌∷◌, arith, str_eq, eq_iff,
}
use contentflow.CollectionJob.Event.{CollectionRequested}
use contentflow.CollectionJob.Env.{Env, World, JobExecutionModel, JobExecutionStatus}
use contentflow.CollectionJob.Execution.Row.{
  of_task, is_claimed_by, should_process, new_model, take_over,
}
use contentflow.CollectionJob.Execution.{
  claim, update_claimed, mark_succeeded, mark_failed, mark_dlq,
}
use contentflow.CollectionJob.Execution.Lease.{row, granted, claim-leased}

-- A call of the repository, by any worker at any time.
pub data Op : Type 0 where
  claims : CollectionRequested → String → ℕ → ℕ → Op
  succeeds : String → String → ℤ → ℕ → Op
  fails : String → String → ℤ → String → ℕ → Op
  buries : String → String → String → ℕ → Op

module _ (env : Env) where
  pub step : Op → World → World
  step (claims event claim_id now until) w = (claim env event claim_id now until w).1
  step (succeeds task_id claim_id run_id now) w =
      (mark_succeeded env task_id claim_id run_id now w).1
  step (fails task_id claim_id attempt text now) w =
      (mark_failed env task_id claim_id attempt text now w).1
  step (buries task_id claim_id text now) w = (mark_dlq env task_id claim_id text now w).1

  pub run : List Op → World → World
  run [] w = w
  run (op ∷ ops) w = run ops (step op w)

abbrev pub is_final : JobExecutionStatus → Bool
is_final JobExecutionStatus.succeeded = true
is_final JobExecutionStatus.dlq = true
is_final _ = false

module _ (env : Env) (task_id : String) (m : JobExecutionModel)
    (final : is_final m.status ≡ true) where
  pub final-should_process :
      (event : CollectionRequested) (now : ℕ) → should_process m event now ≡ false
  unfolding should_process
  final-should_process event now = ground arith

  claim_other :
      (event : CollectionRequested) (claim_id : String) (now until : ℕ) (w : World)
      → row task_id w ≡ some m
      → str_eq task_id event.task_id ≡ false
      → row task_id (claim env event claim_id now until w).1 ≡ some m
  unfolding claim
  claim_other event claim_id now until w found ne = ground (
    arith,
    first_where-append (of_task task_id) w.executions
        (new_model event claim_id now until w.serial ∷ []),
    first_where_hit (of_task task_id) w.executions m found,
    eq_iff m.task_id task_id,
    eq_iff m.task_id event.task_id,
    eq_iff event.task_id task_id,
    eq_iff task_id event.task_id,
    first_where-update_where (of_task task_id) (of_task event.task_id)
        (take_over event claim_id now until) w.executions (λ x. refl),
  )

  update_claimed_final :
      (other claim_id : String) (updates : JobExecutionModel → JobExecutionModel) (w : World)
      → ((x : JobExecutionModel) → of_task task_id (updates x) ≡ of_task task_id x)
      → row task_id w ≡ some m
      → row task_id (update_claimed env other claim_id updates w).1 ≡ some m
  unfolding update_claimed
  update_claimed_final other claim_id updates w keep found = ground (
    arith,
    first_where-update_where (of_task task_id) (is_claimed_by other claim_id) updates w.executions
        keep,
  )

  step_final : (op : Op) (w : World) → row task_id w ≡ some m → row task_id (step env op w) ≡ some m
  unfolding step mark_succeeded mark_failed mark_dlq
  step_final (claims event claim_id now until) w found =
      elim (Bool-cases (str_eq task_id event.task_id)) [
        | inl same ↦
            let own : row event.task_id w ≡ some m =
              rw (← (eq_iff task_id event.task_id).0 same) found in
            rw
              (claim-leased env event claim_id now until w m own (final-should_process event now)).1
              found
        | inr ne ↦ claim_other event claim_id now until w found ne
      ]
  step_final (succeeds other claim_id run_id now) w found =
      update_claimed_final other claim_id _ w (λ x. refl) found
  step_final (fails other claim_id attempt text now) w found =
      update_claimed_final other claim_id _ w (λ x. refl) found
  step_final (buries other claim_id text now) w found =
      update_claimed_final other claim_id _ w (λ x. refl) found

  run_final :
      (ops : List Op) (w : World) → row task_id w ≡ some m → row task_id (run env ops w) ≡ some m
  unfolding run
  run_final [] w found = found
  run_final (op ∷ ops) w found = run_final ops (step env op w) (step_final op w found)

-- A task that has succeeded or gone to the dead letters keeps its row through any later operations
-- of any workers on any tasks, and no later claim of it is granted.
pub run-final :
    (env : Env) (event : CollectionRequested) (m : JobExecutionModel) (ops : List Op) (w : World)
    (claim_id : String) (now until : ℕ)
    → row event.task_id w ≡ some m
    → is_final m.status ≡ true
    → (row event.task_id (run env ops w) ≡ some m)
      × (granted (claim env event claim_id now until (run env ops w)).0 ≡ false)
run-final env event m ops w claim_id now until found final =
    let kept = run_final env event.task_id m final ops w found in
    (
      kept,
      (claim-leased env event claim_id now until (run env ops w) m kept
          (final-should_process env event.task_id m final event now)).0,
    )
