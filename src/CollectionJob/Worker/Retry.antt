-- ===== src/CollectionJob/Worker/Retry.antt =====
-- When a job is given up, and what the request for its next attempt says.
use contentflow.Prelude.{
  leb, ℤ, pos, ◌+ℤ◌, wrap64, Err, ℕ, suc, ◌+◌, ◌*◌, ◌^◌, ◌<◌, ◌≡◌, refl, ◌||◌, arith,
}
use contentflow.CollectionJob.Event.{CollectionRequested, is_permanent_error}
use contentflow.CollectionJob.Env.{Env}
use contentflow.CollectionJob.Backoff.{retry_backoff, add_duration, retry_backoff_lem}
use contentflow.CollectionJob.Worker.Config.{Worker}
use contentflow.CollectionJob.Worker.{gives_up, next_event}

next_attempt : (n : ℕ) (a : ℤ) → a ≡ pos n → suc n < 2 ^ 63 → wrap64 (a +ℤ pos 1) ≡ pos (suc n)
unfolding wrap64
next_attempt n a e small = ground arith

module _ (env : Env) (worker : Worker) (event : CollectionRequested) (attempt : ℕ)
    (ea : event.attempt ≡ pos attempt) (small : suc attempt < 2 ^ 63) where
  -- The last attempt is the one that reaches the limit, or fails for good.
  pub gives_up_lem :
      (cause : Err) (limit : ℕ)
      → worker.max_attempts ≡ pos limit
      → gives_up env worker event cause ≡ (is_permanent_error cause || leb limit (suc attempt))
  gives_up_lem cause limit el = ground (arith, next_attempt attempt event.attempt ea small)

  backoff :
      (base : ℕ)
      → worker.backoff_base ≡ pos base
      → base * 2 ^ attempt < 2 ^ 63
      → retry_backoff worker.backoff_base (wrap64 (event.attempt +ℤ pos 1))
        ≡ pos (base * 2 ^ attempt)
  backoff base eb fits =
      rw (next_attempt attempt event.attempt ea small, eb) (retry_backoff_lem base attempt fits).0

  due :
      (base now : ℕ)
      → worker.backoff_base ≡ pos base
      → base * 2 ^ attempt < 2 ^ 63
      → (next_event env worker event now).next_attempt_at ≡ now + base * 2 ^ attempt
  unfolding add_duration
  due base now eb fits = ground (arith, backoff base eb fits)

  -- The retry after attempt `k` is due once the base delay, doubled `k` times, has passed.
  pub next_event_lem :
      (base now : ℕ)
      → worker.backoff_base ≡ pos base
      → base * 2 ^ attempt < 2 ^ 63
      → next_event env worker event now
        ≡ record event { attempt = pos (suc attempt); next_attempt_at = now + base * 2 ^ attempt }
  next_event_lem base now eb fits =
      rw (← due base now eb fits, ← next_attempt attempt event.attempt ea small) refl
