-- ===== src/CollectionJob/Tests/Execution.antt =====
-- The execution log and the retry delays on concrete tasks.
use contentflow.Prelude.{
  pos, is_ok, first_where, count_where, ◌≡◌, refl, false, some, List, [], ◌∷◌, arith, eq_iff,
}
use contentflow.CollectionJob.Tests.Data.{
  request, calm, finished_row, empty_world, busy_world, finished_world,
}
use contentflow.CollectionJob.Execution.{claim, update_claimed}
use contentflow.CollectionJob.Execution.Row.{to_failed}
use contentflow.CollectionJob.Execution.Lease.{granted, lease_exclusive, update_claimed-lost, row}
use contentflow.CollectionJob.Execution.History.{Op, run, run-final}

lease_exclusive_example :
    let w' = (claim calm request "claim-a" 1000 4000 empty_world).1 in
    (granted (claim calm request "claim-b" 2000 6000 w').0 ≡ false)
    × ((claim calm request "claim-b" 2000 6000 w').1.executions ≡ w'.executions)
unfolding claim first_where
lease_exclusive_example =
    lease_exclusive calm request request "claim-a" "claim-b" 1000 4000 2000 6000 empty_world refl
      refl (omega arith) (omega arith)

update_claimed-lost_example :
    (is_ok (update_claimed calm "task-1" "claim-a" (to_failed (pos 1) "late" 6000) busy_world).0
      ≡ false)
    × ((update_claimed calm "task-1" "claim-a"
          (to_failed (pos 1) "late" 6000)
          busy_world).1.executions
        ≡ busy_world.executions)
unfolding count_where
update_claimed-lost_example =
    update_claimed-lost calm "task-1" "claim-a" (to_failed (pos 1) "late" 6000) busy_world
      (λ same working held. absurd (ground (arith, (eq_iff "claim-b" "claim-a").1 held)), tt)

abbrev execution_ops : List Op
execution_ops =
    Op.claims request "claim-a" 6000 9000
    ∷ Op.fails "task-1" "claim-b" (pos 1) "late" 6100
    ∷ Op.buries "task-1" "claim-a" "late" 6200
    ∷ []

run-final_example :
    (row "task-1" (run calm execution_ops finished_world) ≡ some finished_row)
    × (granted (claim calm request "claim-c" 9000 9900 (run calm execution_ops finished_world)).0
        ≡ false)
unfolding first_where
run-final_example =
    run-final calm request finished_row execution_ops finished_world "claim-c" 9000 9900 refl refl
