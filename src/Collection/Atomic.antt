-- ===== src/Collection/Atomic.antt =====
-- What a collection leaves in the database: the articles with their run, or neither.
use contentflow.Prelude.{
  Option-cases, is_some, ℤ, Err, Result, is_ok, ok, err, length, ℕ, suc, String, ◌≡◌, ◌∙◌, inl, inr,
  Bool, true, false, not, some, List, [], ◌∷◌, ◌++◌, arith,
}
use contentflow.Collection.Data.{Env, Source, CollectedItem, World, next_tick, CollectSourceRequest}
use contentflow.Collection.Service.{
  CollectionService, Collected, in_transaction, mark_stale_running_runs_failed, finish_in_tx,
  failed_params, finish_failed, acquire_lock, has_transaction,
}
use contentflow.Collection.Runs.{
  FinishRunParams, finish_run, mark_stale_running_failed, update_source, new_run, create_run,
  find_source,
}
use contentflow.Collection.Collect.{
  finish_success_in_tx, finish_success, after_collect, collect_locked, collect_found, after_find,
  collect_source, write_error, left_source,
}

-- whether the collection succeeded
abbrev pub succeeded : Result Collected → Bool
succeeded (ok c) = not (is_some c.failure)
succeeded (err e) = false

module _ (env : Env) (s : CollectionService) where
  finish_in_tx-articles :
      (params : FinishRunParams) (a b : String) (src : Source) (w : World)
      → (finish_in_tx env s params a b src w).1.articles ≡ w.articles
  unfolding finish_in_tx finish_run update_source
  finish_in_tx-articles params a b src w = ground arith

  failed-articles :
      (run_id : ℕ) (src : Source) (n : ℕ) (e : Err) (w : World)
      → ((finish_failed env s run_id src n e w).1.articles ≡ w.articles)
        × (succeeded (finish_failed env s run_id src n e w).0 ≡ false)
  unfolding finish_failed
  failed-articles run_id src n e w = ground (
    arith,
    finish_in_tx-articles (failed_params env s run_id (env.clock w.tick) n e)
        "finish collection run failed" "update source failed status" src (next_tick w),
    finish_in_tx-articles (failed_params env s run_id (env.clock w.tick) n e)
        "finish collection run failed" "update source failed status" src (next_tick (next_tick w)),
  )

  stale-articles :
      (src : Source) (w : World)
      → (mark_stale_running_runs_failed env s src w).1.articles ≡ w.articles
  unfolding mark_stale_running_runs_failed mark_stale_running_failed update_source
  stale-articles src w = ground arith

  -- the transaction on the articles and the run: all of it or nothing
  tx-articles :
      (run_id : ℕ) (src : Source) (items : List CollectedItem) (w : World)
      → has_transaction env s ≡ true
      → let (r, w') = in_transaction env s (finish_success_in_tx env s run_id src items) w in
        is_ok r ≡ false → w'.articles ≡ w.articles
  tx-articles run_id src items w has failed = ground arith

  -- An error in saving the articles fails the transaction.
  tx_failed :
      (run_id : ℕ) (src : Source) (items : List CollectedItem) (w : World) (e : Err)
      → write_error env s items w ≡ some e
      → is_ok (in_transaction env s (finish_success_in_tx env s run_id src items) w).0 ≡ false
  unfolding finish_success_in_tx
  tx_failed run_id src items w e failed = ground arith

  success-articles :
      (run_id : ℕ) (src : Source) (items : List CollectedItem) (w : World)
      → has_transaction env s ≡ true
      → succeeded (finish_success env s run_id src items w).0 ≡ false
      → (finish_success env s run_id src items w).1.articles ≡ w.articles
  unfolding finish_success
  success-articles run_id src items w has failed = elim (Option-cases (write_error env s items w)) [
    | inr (e, bad) ↦ ground (
      arith,
      tx-articles run_id src items w has (tx_failed run_id src items w e bad),
      failed-articles run_id src (length items) e
          (in_transaction env s (finish_success_in_tx env s run_id src items) w).1,
    )
    | inl good ↦ grind (arith, tx-articles run_id src items w has)
  ]

  after_collect-articles :
      (run_id : ℕ) (src : Source) (r : Result (List CollectedItem)) (w : World)
      → has_transaction env s ≡ true
      → succeeded (after_collect env s run_id src r w).0 ≡ false
      → (after_collect env s run_id src r w).1.articles ≡ w.articles
  after_collect-articles run_id src (ok items) w has failed =
      success-articles run_id src items w has failed
  after_collect-articles run_id src (err e) w has failed = (failed-articles run_id src 0 e w).0

  -- the world in which the collector has answered
  abbrev collecting : Source → World → World
  collecting src w = record w {
    tick = suc (suc (suc w.tick));
    serial = suc w.serial;
    runs = w.runs ++ new_run src.id (env.clock w.tick) w.serial ∷ [];
  }

  locked-articles :
      (src : Source) (w : World)
      → has_transaction env s ≡ true
      → succeeded (collect_locked env s src w).0 ≡ false
      → (collect_locked env s src w).1.articles ≡ w.articles
  unfolding collect_locked create_run
  locked-articles src w has failed = elim (Option-cases (env.fault (suc w.tick))) [
    | inr (e, fault) ↦ ground arith
    | inl fine ↦ ground (
      arith,
      after_collect-articles w.serial (left_source env s src w) (env.collect (suc (suc w.tick)) src)
          (collecting src w) has,
    )
  ]

  found-articles :
      (src : Source) (w : World)
      → has_transaction env s ≡ true
      → succeeded (collect_found env s src w).0 ≡ false
      → (collect_found env s src w).1.articles ≡ w.articles
  unfolding collect_found acquire_lock
  found-articles src w has failed = grind (arith, stale-articles src w, locked-articles)

  after_find-articles :
      (r : Result Source) (w : World)
      → has_transaction env s ≡ true
      → succeeded (after_find env s r w).0 ≡ false
      → (after_find env s r w).1.articles ≡ w.articles
  after_find-articles (ok src) w has failed = found-articles src w has failed
  after_find-articles (err e) w has failed = ground arith

  find-articles :
      (user_id id : ℤ) (w : World) → (find_source env user_id id w).1.articles ≡ w.articles
  unfolding find_source
  find-articles user_id id w = ground arith

-- With a transaction runner that has a database, a collection that does not succeed, for whatever reason, stores no
-- article: the articles are stored only together with the successful end of their run.
pub collect_source-atomic :
    (env : Env) (s : CollectionService) (req : CollectSourceRequest) (w : World)
    → has_transaction env s ≡ true
    → succeeded (collect_source env s req w).0 ≡ false
    → (collect_source env s req w).1.articles ≡ w.articles
unfolding collect_source
collect_source-atomic env s req w has failed =
    let (r, w') = find_source env req.user_id req.source_id w in
    after_find-articles env s r w' has failed ∙ find-articles env s req.user_id req.source_id w
