-- ===== src/CollectionJob/Execution/Lease.antt =====
-- The lease of a task: who may work on it, and whose result is recorded.
use contentflow.Prelude.{
  Option-cases, ℤ, ◌≤ℤ◌, Result, is_ok, ok, err, first_where, count_where, All,
  first_where-update_where, update_where-none, first_where_hit, first_where-append,
  first_where_single, ℕ, ◌<◌, String, ◌≡◌, refl, ◌≢◌, inl, inr, Bool, true, false, Option, none,
  some, List, [], ◌∷◌, arith, eq_iff,
}
use contentflow.CollectionJob.Event.{CollectionRequested}
use contentflow.CollectionJob.Env.{Env, World, JobExecutionModel, JobExecutionStatus}
use contentflow.CollectionJob.Execution.Row.{
  of_task, JobExecution, is_claimed_by, should_process, new_model, take_over,
}
use contentflow.CollectionJob.Execution.{claim, update_claimed}

-- the row of a task
abbrev pub row : String → World → Option JobExecutionModel
row task_id w = first_where (of_task task_id) w.executions

-- The row is leased to `claim_id` until `until`, for the attempt `attempt`.
pub record IsLeased (m : JobExecutionModel) (claim_id : String) (attempt : ℤ) (until : ℕ)
    : Type 0 where
  pub working : m.status ≡ JobExecutionStatus.processing
  pub holder : m.claim_id ≡ claim_id
  pub at_attempt : m.attempt ≡ attempt
  pub locked : m.locked_until ≡ some until

-- the same of a row that may be missing
abbrev pub IsLeasedRow : Option JobExecutionModel → String → ℤ → ℕ → Type 0
IsLeasedRow none claim_id attempt until = ⊥
IsLeasedRow (some m) claim_id attempt until = IsLeased m claim_id attempt until

abbrev pub granted : Result (JobExecution × Bool) → Bool
granted (ok (_, yes_or_no)) = yes_or_no
granted (err e) = false

-- A task that is leased, at this attempt or a later one, and whose lease is not over, is not granted.
pub claim-leased :
    (env : Env) (event : CollectionRequested) (claim_id : String) (now locked_until : ℕ) (w : World)
    (m : JobExecutionModel)
    → row event.task_id w ≡ some m
    → should_process m event now ≡ false
    → (granted (claim env event claim_id now locked_until w).0 ≡ false)
      × ((claim env event claim_id now locked_until w).1.executions ≡ w.executions)
unfolding claim
claim-leased env event claim_id now locked_until w m found leased = ground arith

-- A granted claim leaves the row of the task leased to the claim, for the attempt of the event.
pub claim-granted :
    (env : Env) (event : CollectionRequested) (claim_id : String) (now locked_until : ℕ) (w : World)
    → granted (claim env event claim_id now locked_until w).0 ≡ true
    → IsLeasedRow
        (row event.task_id (claim env event claim_id now locked_until w).1)
        claim_id
        event.attempt
        locked_until
unfolding claim
claim-granted env event claim_id now locked_until w h = elim (Option-cases (row event.task_id w)) [
  | inl new ↦ ground (
    arith,
    first_where-append (of_task event.task_id) w.executions
        (new_model event claim_id now locked_until w.serial ∷ []),
    first_where_single (of_task event.task_id) (new_model event claim_id now locked_until w.serial),
    (eq_iff event.task_id event.task_id).1 refl,
  )
  | inr (m, old) ↦ ground (
    arith,
    first_where_hit (of_task event.task_id) w.executions m old,
    first_where-update_where (of_task event.task_id) (of_task event.task_id)
        (take_over event claim_id now locked_until) w.executions (λ x. refl),
  )
]

leased-should_process :
    (m : JobExecutionModel) (event : CollectionRequested) (later : ℕ) (claim_id : String)
    (attempt : ℤ) (until : ℕ)
    → IsLeased m claim_id attempt until
    → event.attempt ≤ℤ attempt
    → later < until
    → should_process m event later ≡ false
unfolding should_process
leased-should_process m event later claim_id attempt until l le early = ground arith

-- After a granted claim, a second claim of the task, for the same attempt or an earlier one and
-- before the lease ends, is not granted and changes no row, whatever the database does.
pub lease_exclusive :
    (env : Env) (first second : CollectionRequested) (holder rival : String)
    (now until later until' : ℕ) (w : World)
    → granted (claim env first holder now until w).0 ≡ true
    → second.task_id ≡ first.task_id
    → second.attempt ≤ℤ first.attempt
    → later < until
    → let w' = (claim env first holder now until w).1 in
      (granted (claim env second rival later until' w').0 ≡ false)
      × ((claim env second rival later until' w').1.executions ≡ w'.executions)
lease_exclusive env first second holder rival now until later until' w g same le early =
    let w' = (claim env first holder now until w).1 in
    elim (Option-cases (row first.task_id w')) [
      | inl gone ↦ absurd (rw gone at (claim-granted env first holder now until w g))
      | inr (m, found) ↦ claim-leased env second rival later until' w' m (rw same found) (
          leased-should_process m second later holder first.attempt until
            (rw found at (claim-granted env first holder now until w g)) le early)
    ]

lost-count_where :
    (task_id claim_id : String) (ms : List JobExecutionModel)
    → All
        (λ m.
          m.task_id ≡ task_id → m.status ≡ JobExecutionStatus.processing → m.claim_id ≢ claim_id)
        ms
    → count_where (is_claimed_by task_id claim_id) ms ≡ 0
unfolding count_where
lost-count_where task_id claim_id [] lost = refl
lost-count_where task_id claim_id (m ∷ ms) lost = ground (
  arith,
  lost.0,
  lost-count_where task_id claim_id ms lost.1,
  eq_iff m.task_id task_id,
  eq_iff m.claim_id claim_id,
)

-- A worker that no longer holds the task, since no row of the task is in processing under the claim
-- of the worker, records nothing: the update is refused and every row stays as it was, whatever the
-- database does.
pub update_claimed-lost :
    (env : Env) (task_id claim_id : String) (updates : JobExecutionModel → JobExecutionModel)
    (w : World)
    → All
        (λ m.
          m.task_id ≡ task_id → m.status ≡ JobExecutionStatus.processing → m.claim_id ≢ claim_id)
        w.executions
    → (is_ok (update_claimed env task_id claim_id updates w).0 ≡ false)
      × ((update_claimed env task_id claim_id updates w).1.executions ≡ w.executions)
unfolding update_claimed
update_claimed-lost env task_id claim_id updates w lost =
    let no_row = lost-count_where task_id claim_id w.executions lost in
    ground (
      arith,
      no_row,
      update_where-none (is_claimed_by task_id claim_id) updates w.executions no_row,
    )
