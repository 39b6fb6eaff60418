-- ===== src/CollectionJob/Outbox/Dispatcher.antt =====
-- internal/module/collectionjob/outbox.go: the dispatcher, which moves events from the outbox to Kafka.
use contentflow.Prelude.{
  if◌then◌else◌, ℤ, pos, ltb_ℤ, ◌+ℤ◌, wrap64, message, Result, Proc, pure, wrapping, ignoring,
  trying, ◌>>=◌, ◌>>◌, ok, err, ℕ, zero, suc, String, Bool, false, List, [], ◌∷◌,
}
use contentflow.CollectionJob.Event.{Event}
use contentflow.CollectionJob.Env.{
  Env, World, Outcome, read_clock, random_task_id, write, observe_job,
}
use contentflow.CollectionJob.Backoff.{retry_backoff, add_duration}
use contentflow.CollectionJob.Outbox.Row.{OutboxEvent}
use contentflow.CollectionJob.Outbox.{claim_ready, mark_sent, mark_failed}

pub record OutboxDispatcher : Type 0 where
  pub has_observer : Bool
  pub batch_size : ℤ
  pub backoff : ℤ
  pub interval : ℤ
  pub claim_ttl : ℤ

-- The functional options change a setting only to a positive value.
abbrev pub with_outbox_batch_size : ℤ → OutboxDispatcher → OutboxDispatcher
with_outbox_batch_size n d = if ltb_ℤ (pos 0) n then record d { batch_size = n } else d

abbrev pub with_outbox_backoff : ℤ → OutboxDispatcher → OutboxDispatcher
with_outbox_backoff n d = if ltb_ℤ (pos 0) n then record d { backoff = n } else d

abbrev pub with_outbox_interval : ℤ → OutboxDispatcher → OutboxDispatcher
with_outbox_interval n d = if ltb_ℤ (pos 0) n then record d { interval = n } else d

abbrev pub with_outbox_claim_ttl : ℤ → OutboxDispatcher → OutboxDispatcher
with_outbox_claim_ttl n d = if ltb_ℤ (pos 0) n then record d { claim_ttl = n } else d

abbrev pub with_outbox_observer : Bool → OutboxDispatcher → OutboxDispatcher
with_outbox_observer b d = record d { has_observer = b }

abbrev apply_options :
    List (OutboxDispatcher → OutboxDispatcher) → OutboxDispatcher → OutboxDispatcher
apply_options [] d = d
apply_options (opt ∷ opts) d = apply_options opts (opt d)

-- `NewOutboxDispatcher`
abbrev pub new_outbox_dispatcher : List (OutboxDispatcher → OutboxDispatcher) → OutboxDispatcher
new_outbox_dispatcher opts = apply_options opts (record {
  has_observer = false;
  batch_size = pos 100;
  backoff = pos 60_000_000_000;
  interval = pos 1_000_000_000;
  claim_ttl = pos 300_000_000_000;
})

abbrev pub outbound : OutboxEvent → Event
outbound ev = record { topic = ev.topic; key = ev.key; value = ev.value }

module _ (env : Env) (d : OutboxDispatcher) where
  abbrev after_write : ℕ → String → OutboxEvent → Result (Unit {0}) → Proc World (Unit {0})
  after_write now claim_id ev (err e) = do
    observe_job d.has_observer ev.topic Outcome.failure
    let next_attempts = wrap64 (ev.attempts +ℤ pos 1)
    let next_attempt_at = add_duration now (retry_backoff d.backoff next_attempts)
    updated ←
        wrapping "mark outbox failed"
          (mark_failed env ev.id claim_id next_attempts next_attempt_at (message e))
    pure tt
  after_write now claim_id ev (ok _) = do
    observe_job d.has_observer ev.topic Outcome.success
    updated ← wrapping "mark outbox sent" (mark_sent env ev.id claim_id now)
    pure tt

  -- one round of the loop over the claimed events
  unfoldable pub dispatch_one : ℕ → String → OutboxEvent → Proc World (Unit {0})
  dispatch_one now claim_id ev = do
    written ← trying (write env (outbound ev))
    after_write now claim_id ev written

  unfoldable pub dispatch_each : ℕ → String → List OutboxEvent → Proc World (Unit {0})
  dispatch_each now claim_id [] = pure tt
  dispatch_each now claim_id (ev ∷ evs) =
      dispatch_one now claim_id ev >> dispatch_each now claim_id evs

  -- `DispatchReady`
  unfoldable pub dispatch_ready : Proc World (Unit {0})
  dispatch_ready = do
    now ← read_clock env
    claim_id ← random_task_id env
    r ←
        wrapping "claim ready outbox events"
          (claim_ready env now d.batch_size claim_id (add_duration now d.claim_ttl))
    dispatch_each now claim_id r.0

  -- `Run`: so many rounds until the context is done; an error is logged
  unfoldable pub run : ℕ → Proc World (Unit {0})
  run zero = pure tt
  run (suc n) = ignoring dispatch_ready >> run n
