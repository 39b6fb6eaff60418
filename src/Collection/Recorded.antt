-- ===== src/Collection/Recorded.antt =====
-- The run that a collection names in its answer.
use contentflow.Prelude.{
  ◌==◌, Option-cases, Err, Result, is_ok, Result-cases, ok, err, length, first_where, count_where,
  update_where, ℕ, suc, String, ◌≡◌, inl, inr, Bool, true, false, Option, none, some, List, [], ◌∷◌,
  ◌++◌, arith,
}
use contentflow.Collection.Data.{
  Env, Source, CollectionRun, CollectSourceResponse, World, next_tick, run_status_success,
  CollectedItem, ArticleWriteResult, CollectSourceRequest,
}
use contentflow.Collection.Service.{
  CollectionService, Collected, finish_in_tx, failed_params, finish_failed, fetched, in_transaction,
  mark_stale_running_runs_failed, acquire_lock, release,
}
use contentflow.Collection.Runs.{
  FinishRunParams, has_run_id, to_finished, finish_run, update_source, new_run, create_run,
  find_source,
}
use contentflow.Collection.Collect.{
  save_items, success_params, finish_success_in_tx, finish_success, deferred, after_collect,
  collect_locked, after_acquire, collect_found, after_find, collect_source, write_error,
  left_source,
}

-- The run is stored with this status, these counts and this error.
abbrev pub IsStored : String → ℕ → ℕ → ℕ → String → Option CollectionRun → Type 0
IsStored status fetched inserted duplicated text none = ⊥
IsStored status fetched inserted duplicated text (some r) =
    (r.status ≡ status)
    × (r.fetched_count ≡ fetched)
    × (r.inserted_count ≡ inserted)
    × (r.duplicated_count ≡ duplicated)
    × (r.error_message ≡ text)

-- The stored run says what the response says.
abbrev pub IsRecorded : CollectSourceResponse → Option CollectionRun → Type 0
IsRecorded resp =
    IsStored resp.status resp.fetched_count resp.inserted_count resp.duplicated_count
      resp.error_message

abbrev pub stored_run : ℕ → World → Option CollectionRun
stored_run id w = first_where (has_run_id id) w.runs

-- the same for a result, which may be an error and name no run
abbrev pub IsRecordedIn : Result Collected → World → Type 0
IsRecordedIn (ok c) w = IsRecorded c.response (stored_run c.response.run_id w)
IsRecordedIn (err e) w = Unit {0}

-- the run says what it was finished with
abbrev IsFinishedRow : FinishRunParams → Option CollectionRun → Type 0
IsFinishedRow p =
    IsStored p.status p.fetched_count p.inserted_count p.duplicated_count p.error_message

finished-row :
    (p : FinishRunParams) (runs : List CollectionRun)
    → (count_where (has_run_id p.run_id) runs == 0) ≡ false
    → IsFinishedRow p (
        first_where (has_run_id p.run_id) (update_where (has_run_id p.run_id) (to_finished p) runs))
unfolding count_where first_where update_where
finished-row p [] h = ground arith
finished-row p (r ∷ rs) h = ground (arith, finished-row p rs)

-- the run after the transaction of a successful collection
abbrev IsWritten : ℕ → ℕ → Result ArticleWriteResult → World → Type 0
IsWritten run_id n (err e) w = Unit {0}
IsWritten run_id n (ok written) w =
    IsStored run_status_success n written.inserted_count written.duplicated_count ""
      (stored_run run_id w)

module _ (env : Env) (s : CollectionService) where
  finish_in_tx-row :
      (p : FinishRunParams) (a b : String) (src : Source) (w : World)
      → is_ok (finish_in_tx env s p a b src w).0 ≡ true
      → IsFinishedRow p (stored_run p.run_id (finish_in_tx env s p a b src w).1)
  unfolding finish_in_tx finish_run update_source
  finish_in_tx-row p a b src w done = ground (arith, finished-row p w.runs)

  failed-IsRecordedIn :
      (run_id : ℕ) (src : Source) (n : ℕ) (e : Err) (w : World)
      → let (r, w') = finish_failed env s run_id src n e w in IsRecordedIn r w'
  unfolding finish_failed
  failed-IsRecordedIn run_id src n e w = ground (
    arith,
    finish_in_tx-row (failed_params env s run_id (env.clock w.tick) n e)
        "finish collection run failed" "update source failed status" src (next_tick w),
    finish_in_tx-row (failed_params env s run_id (env.clock w.tick) n e)
        "finish collection run failed" "update source failed status" src (next_tick (next_tick w)),
  )

  in_tx-IsWritten :
      (run_id : ℕ) (src : Source) (items : List CollectedItem) (w : World)
      → let (r, w') = finish_success_in_tx env s run_id src items w in
        IsWritten run_id (length items) r w'
  unfolding finish_success_in_tx
  in_tx-IsWritten run_id src items w = elim (Result-cases (save_items env s items w).0) [
    | inr (e, bad) ↦ ground arith
    | inl (written, good) ↦ ground (
      arith,
      finish_in_tx-row (success_params env s run_id (env.clock (suc w.tick)) items written)
          "finish collection run success" "update source fetch status" src
          (next_tick (save_items env s items w).1),
    )
  ]

  tx-IsWritten :
      (run_id : ℕ) (src : Source) (items : List CollectedItem) (w : World)
      → let (r, w') = in_transaction env s (finish_success_in_tx env s run_id src items) w in
        IsWritten run_id (length items) r w'
  tx-IsWritten run_id src items w =
      ground
        (arith, in_tx-IsWritten run_id src items w, in_tx-IsWritten run_id src items (next_tick w))

  success-IsRecordedIn :
      (run_id : ℕ) (src : Source) (items : List CollectedItem) (w : World)
      → let (r, w') = finish_success env s run_id src items w in IsRecordedIn r w'
  unfolding finish_success
  success-IsRecordedIn run_id src items w = elim (Option-cases (write_error env s items w)) [
    | inr (e, bad) ↦ ground (
      arith,
      failed-IsRecordedIn run_id src (length items) e
          (in_transaction env s (finish_success_in_tx env s run_id src items) w).1,
    )
    | inl good ↦ ground (arith, tx-IsWritten run_id src items w)
  ]

  after_collect-IsRecordedIn :
      (run_id : ℕ) (src : Source) (r : Result (List CollectedItem)) (w : World)
      → let (c, w') = after_collect env s run_id src r w in IsRecordedIn c w'
  after_collect-IsRecordedIn run_id src (ok items) w = success-IsRecordedIn run_id src items w
  after_collect-IsRecordedIn run_id src (err e) w = failed-IsRecordedIn run_id src 0 e w

  locked-IsRecordedIn :
      (src : Source) (w : World) → let (c, w') = collect_locked env s src w in IsRecordedIn c w'
  unfolding collect_locked create_run
  locked-IsRecordedIn src w = elim (Option-cases (env.fault (suc w.tick))) [
    | inr (e, fault) ↦ ground arith
    | inl fine ↦ ground (
      arith,
      after_collect-IsRecordedIn w.serial (left_source env s src w)
          (env.collect (suc (suc w.tick)) src)
          (record w {
            tick = suc (suc (suc w.tick));
            serial = suc w.serial;
            runs = w.runs ++ new_run src.id (env.clock w.tick) w.serial ∷ [];
          }),
    )
  ]

  released-IsRecordedIn :
      (src : Source) (w : World)
      → let (c, w') = deferred (release env s src.id) (collect_locked env s src) w in
        IsRecordedIn c w'
  released-IsRecordedIn src w = ground (arith, locked-IsRecordedIn src w)

  acquired-IsRecordedIn :
      (src : Source) (acquired : Bool) (w : World)
      → let (c, w') = after_acquire env s src acquired w in IsRecordedIn c w'
  acquired-IsRecordedIn src false w = tt
  acquired-IsRecordedIn src true w = released-IsRecordedIn src w

  found-IsRecordedIn :
      (src : Source) (w : World) → let (c, w') = collect_found env s src w in IsRecordedIn c w'
  unfolding collect_found
  found-IsRecordedIn src w = elim (Result-cases (mark_stale_running_runs_failed env s src w).0) [
    | inr (e, bad) ↦ ground arith
    | inl (src', good) ↦
        let w1 = (mark_stale_running_runs_failed env s src w).1 in
        elim (Result-cases (acquire_lock env s src'.id w1).0) [
          | inr (e, bad) ↦ ground arith
          | inl (acquired, fine) ↦
              ground (arith, acquired-IsRecordedIn src' acquired (acquire_lock env s src'.id w1).1)
        ]
  ]

  after_find-IsRecordedIn :
      (r : Result Source) (w : World) → let (c, w') = after_find env s r w in IsRecordedIn c w'
  after_find-IsRecordedIn (ok src) w = found-IsRecordedIn src w
  after_find-IsRecordedIn (err e) w = ground arith

-- Every response of a collection names a run that is stored with the status, the counts and the
-- error of the response, whether the collection succeeded or failed.
pub collect_source-IsRecordedIn :
    (env : Env) (s : CollectionService) (req : CollectSourceRequest) (w : World)
    → let (c, w') = collect_source env s req w in IsRecordedIn c w'
unfolding collect_source
collect_source-IsRecordedIn env s req w =
    let (r, w') = find_source env req.user_id req.source_id w in after_find-IsRecordedIn env s r w'
