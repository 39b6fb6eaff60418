-- ===== src/Collection/Lock.antt =====
-- The lock of a source.
use contentflow.Prelude.{
  Option-cases, ℤ, Err, Result, Proc, ok, err, ℕ, suc, String, ◌≡◌, sym, ap, ◌∙◌, inl, inr, List,
  [], ◌∷◌, ◌++◌, arith,
}
use contentflow.Collection.Data.{Env, Source, CollectedItem, World, CollectSourceRequest, next_tick}
use contentflow.Collection.Service.{
  CollectionService, finish_failed, finish_in_tx, mark_stale_running_runs_failed, acquire_lock,
  in_transaction, failed_params,
}
use contentflow.Collection.Runs.{
  finish_run, update_source, FinishRunParams, create_run, mark_stale_running_failed, find_source,
  new_run,
}
use contentflow.Collection.Collect.{
  finish_success_in_tx, finish_success, collect_locked, collect_found, collect_source,
  after_collect, after_find, left_source,
}

-- the locks that were taken and those whose release was called
abbrev locks : World → List ℕ × List ℕ
locks w = (w.acquired, w.tried)

-- A procedure that takes no lock and gives none back.
abbrev IsFree : {A : Type 0} → Proc World A → Type 0
IsFree m = (w : World) → locks (m w).1 ≡ locks w

module _ (env : Env) (s : CollectionService) where
  stale-IsFree : (src : Source) → IsFree (mark_stale_running_runs_failed env s src)
  unfolding mark_stale_running_runs_failed mark_stale_running_failed update_source
  stale-IsFree src w = ground arith

  finish_in_tx-IsFree :
      (params : FinishRunParams) (a b : String) (src : Source)
      → IsFree (finish_in_tx env s params a b src)
  unfolding finish_in_tx finish_run update_source
  finish_in_tx-IsFree params a b src w = ground arith

  finish_tx-IsFree :
      (params : FinishRunParams) (a b : String) (src : Source)
      → IsFree (in_transaction env s (finish_in_tx env s params a b src))
  finish_tx-IsFree params a b src w = ground (
    arith,
    finish_in_tx-IsFree params a b src w,
    finish_in_tx-IsFree params a b src (next_tick w),
  )

  failed-IsFree :
      (run_id : ℕ) (src : Source) (n : ℕ) (e : Err) → IsFree (finish_failed env s run_id src n e)
  unfolding finish_failed
  failed-IsFree run_id src n e w = ground (
    arith,
    finish_in_tx-IsFree (failed_params env s run_id (env.clock w.tick) n e)
        "finish collection run failed" "update source failed status" src (next_tick w),
    finish_in_tx-IsFree (failed_params env s run_id (env.clock w.tick) n e)
        "finish collection run failed" "update source failed status" src (next_tick (next_tick w)),
  )

  in_tx-IsFree :
      (run_id : ℕ) (src : Source) (items : List CollectedItem)
      → IsFree (finish_success_in_tx env s run_id src items)
  unfolding finish_success_in_tx
  in_tx-IsFree run_id src items w = grind (arith, finish_in_tx-IsFree)

  success-IsFree :
      (run_id : ℕ) (src : Source) (items : List CollectedItem)
      → IsFree (finish_success env s run_id src items)
  unfolding finish_success
  success-IsFree run_id src items w = grind (
    arith,
    in_tx-IsFree run_id src items w,
    in_tx-IsFree run_id src items (next_tick w),
    failed-IsFree run_id src,
  )

  after_collect-IsFree :
      (run_id : ℕ) (src : Source) (r : Result (List CollectedItem))
      → IsFree (after_collect env s run_id src r)
  after_collect-IsFree run_id src (ok items) w = success-IsFree run_id src items w
  after_collect-IsFree run_id src (err e) w = failed-IsFree run_id src 0 e w

  locked-IsFree : (src : Source) → IsFree (collect_locked env s src)
  unfolding collect_locked create_run
  locked-IsFree src w = elim (Option-cases (env.fault (suc w.tick))) [
    | inr (e, fault) ↦ ground arith
    | inl fine ↦ ground (
      arith,
      after_collect-IsFree w.serial (left_source env s src w) (env.collect (suc (suc w.tick)) src)
          (record w {
            tick = suc (suc (suc w.tick));
            serial = suc w.serial;
            runs = w.runs ++ new_run src.id (env.clock w.tick) w.serial ∷ [];
          }),
    )
  ]

  found-released :
      (src : Source) (w : World)
      → w.acquired ≡ w.tried
      → (collect_found env s src w).1.acquired ≡ (collect_found env s src w).1.tried
  unfolding collect_found acquire_lock
  found-released src w h = grind (arith, stale-IsFree src w, locked-IsFree)

  after_find-released :
      (r : Result Source) (w : World)
      → w.acquired ≡ w.tried
      → (after_find env s r w).1.acquired ≡ (after_find env s r w).1.tried
  after_find-released (ok src) w h = found-released src w h
  after_find-released (err e) w h = ground arith

  find-IsFree : (user_id id : ℤ) → IsFree (find_source env user_id id)
  unfolding find_source
  find-IsFree user_id id w = ground arith

-- For every lock that a collection takes it calls the release of that lock, once and whatever fails
-- before: the locks taken and those whose release was called agree after a collection if they did
-- before. Whether the call succeeds is left open.
pub collect_source-released :
    (env : Env) (s : CollectionService) (req : CollectSourceRequest) (w : World)
    → w.acquired ≡ w.tried
    → (collect_source env s req w).1.acquired ≡ (collect_source env s req w).1.tried
unfolding collect_source
collect_source-released env s req w h =
    let (r, w') = find_source env req.user_id req.source_id w in
    let same = find-IsFree env s req.user_id req.source_id w in
    after_find-released env s r w' (ap (λ p. p.0) same ∙ h ∙ sym (ap (λ p. p.1) same))
