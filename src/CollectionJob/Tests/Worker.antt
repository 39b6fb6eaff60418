-- ===== src/CollectionJob/Tests/Worker.antt =====
-- The worker on concrete messages.
use contentflow.Prelude.{
  pos, wrap64, is_blank, Err, is_error, has_permanent, ok, first_where, count_where, update_where,
  ◌+◌, ◌*◌, ◌≡◌, refl, ◌≢◌, ◌↔◌, true, some, [], ◌∷◌, ◌++◌, arith, eq_iff,
}
use contentflow.CollectionJob.Event.{Payload, is_permanent_error, Message}
use mathlib.Core.Path.{subst}
use mathlib.Core.Option.{some-injective}
use contentflow.CollectionJob.Execution.Lease.{row}
use contentflow.CollectionJob.Tests.Data.{
  request, encode, calm, execution_row, finished_row, empty_world, busy_world, finished_world,
  incoming, worker,
}
use contentflow.CollectionJob.Execution.{mark_failed}
use contentflow.CollectionJob.Worker.{
  process, handle_failed, run_one, write_json, mark_execution_failed,
}
use contentflow.CollectionJob.Worker.Config.{validate_message}
use contentflow.CollectionJob.Worker.Effects.{IsQuiet}
use contentflow.CollectionJob.Worker.Validate.{validate_message_iff, IsWellFormed, is_invalid}
use contentflow.CollectionJob.Worker.Failure.{handle_failed-written, encoded}
use contentflow.CollectionJob.Worker.Handle.{process-final, run_one-malformed}
use contentflow.CollectionJob.Worker.Redelivery.{redelivery_committed}

abbrev unreachable : Err
unreachable = Err.other "feed unreachable"

handle_failed-written_example :
    (handle_failed calm worker request "claim-b" unreachable busy_world).1.written
    ≡ ([]
        ++ encoded calm worker encode
            (λ p. refl)
            "collection.failed"
            "collection:source:7"
            (Payload.failed (record {
              task_id = "task-1";
              source_id = pos 7;
              attempt = pos 0;
              error_message = "feed unreachable";
              failed_at = 1000;
              idempotency_key = "collection:source:7";
              original_requested = request.requested_at;
            }))
          ∷ [])
      ++ encoded calm worker encode
          (λ p. refl)
          "collection.requested"
          "collection:source:7"
          (Payload.requested
            (record request { attempt = pos 1; next_attempt_at = 1002 + 60_000_000_000 * 1 }))
        ∷ []
unfolding handle_failed write_json mark_execution_failed mark_failed is_permanent_error
    has_permanent is_error wrap64 count_where update_where first_where
handle_failed-written_example =
    handle_failed-written calm worker encode (λ p. refl) request "claim-b" unreachable 0 3
      60_000_000_000 busy_world refl refl refl (omega arith) (omega arith) refl

process-final_example : IsQuiet finished_world (process calm worker request finished_world).1
unfolding first_where
process-final_example = process-final calm worker request finished_row finished_world refl refl refl

-- a message whose key is not the one of its request
abbrev misplaced : Message
misplaced = record incoming { key = "collection:source:8" }

misplaced-refused : IsWellFormed misplaced request → ⊥
misplaced-refused good = ground (
  arith,
  good.same_key,
  eq_iff "collection:source:8" "",
  eq_iff "collection:source:8" "collection:source:7",
)

run_one-malformed_example :
    ((run_one calm worker misplaced empty_world).0 ≡ ok tt)
    × ((run_one calm worker misplaced empty_world).1.committed ≡ [] ++ misplaced ∷ [])
    × ((run_one calm worker misplaced empty_world).1.executions ≡ [])
    × ((run_one calm worker misplaced empty_world).1.collected ≡ [])
    × ((run_one calm worker misplaced empty_world).1.written ≡ [])
run_one-malformed_example =
    run_one-malformed calm worker misplaced empty_world
      (λ event read.
        subst (λ e. IsWellFormed misplaced e → ⊥) (some-injective request event read)
          misplaced-refused)
      refl

redelivery_committed_example :
    let (r, w') = run_one calm worker incoming busy_world in
    (r ≡ ok tt)
    × (w'.committed ≡ incoming ∷ [])
    × (w'.collected ≡ [])
    × (row "task-1" w' ≡ some execution_row)
unfolding first_where validate_message is_blank
redelivery_committed_example =
    redelivery_committed calm worker incoming request execution_row 5000 busy_world (λ n. refl)
      (λ n. refl) refl refl refl refl refl refl refl refl (omega arith) (omega arith)

validate_message_iff_example :
    ((validate_message incoming request ≡ ok tt) ↔ IsWellFormed incoming request)
    × ((validate_message incoming request ≢ ok tt)
        → is_invalid (validate_message incoming request) ≡ true)
validate_message_iff_example = validate_message_iff incoming request
