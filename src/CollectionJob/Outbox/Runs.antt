-- ===== src/CollectionJob/Outbox/Runs.antt =====
-- Whole runs of the dispatcher.
use contentflow.Prelude.{Result, wrapping, ◌>>=◌, ok, err, ℕ, zero, suc, String, List, []}
use contentflow.CollectionJob.Env.{Env, World, next_tick}
use contentflow.CollectionJob.Outbox.{claim_ready}
use contentflow.CollectionJob.Backoff.{add_duration}
use contentflow.CollectionJob.Outbox.Row.{OutboxEvent}
use contentflow.CollectionJob.Outbox.Dispatcher.{
  OutboxDispatcher, run, dispatch_each, dispatch_ready,
}
use contentflow.CollectionJob.Outbox.Claim.{returned}
use contentflow.CollectionJob.Outbox.History.{IsValid, claim_ready-IsValid}
use contentflow.CollectionJob.Outbox.Delivery.{
  IsDelivered, claim_ready-IsCurrent, claim_ready-IsDelivered,
}
use contentflow.CollectionJob.Outbox.Dispatch.{IsReady, dispatch_each-IsReady}

module _ (env : Env) (d : OutboxDispatcher) where
  claimed-IsReady :
      (now : ℕ) (claim_id : String) (until : ℕ) (w : World)
      → IsReady w []
      → let (r, w') = claim_ready env now d.batch_size claim_id until w in IsReady w' (returned r)
  claimed-IsReady now claim_id until w r = record {
    valid = claim_ready-IsValid env now d.batch_size claim_id until w r.valid;
    delivered = claim_ready-IsDelivered env now d.batch_size claim_id until w r.delivered;
    current = claim_ready-IsCurrent env now d.batch_size claim_id until w r.valid.numbered;
  }

  dispatch_ready-IsReady : (w : World) → IsReady w [] → IsReady (dispatch_ready env d w).1 []
  unfolding dispatch_ready
  dispatch_ready-IsReady w r =
      let now = env.clock w.tick in
      let claim_id = env.random_id (suc w.tick) in
      let ticked : IsReady (next_tick (next_tick w)) [] = record {
        valid = record { numbered = r.valid.numbered; unique = r.valid.unique };
        delivered = r.delivered;
        current = tt;
      } in
      let (result, w') =
        claim_ready env now d.batch_size claim_id (add_duration now d.claim_ttl)
          (next_tick (next_tick w)) in
      go now claim_id result w' (
        claimed-IsReady now claim_id (add_duration now d.claim_ttl) (next_tick (next_tick w))
          ticked)
    where
      go :
          (now : ℕ) (claim_id : String) (result : Result (List OutboxEvent × ℕ)) (w' : World)
          → IsReady w' (returned result)
          → IsReady
              ((wrapping "claim ready outbox events" (λ _. (result, w')) >>= λ r.
                  dispatch_each env d now claim_id r.0)
                w).1
              []
      go now claim_id (ok (evs, total)) w' r' = dispatch_each-IsReady env d now claim_id evs w' r'
      go now claim_id (err e) w' r' = r'

  run-IsReady : (n : ℕ) (w : World) → IsReady w [] → IsReady (run env d n w).1 []
  unfolding run
  run-IsReady zero w r = r
  run-IsReady (suc n) w r = run-IsReady n (dispatch_ready env d w).1 (dispatch_ready-IsReady w r)

  -- Through any number of rounds of the dispatcher, whichever database statements and Kafka writes
  -- fail, an outbox that is valid and has every sent event written stays so: an event is marked sent
  -- only if it, with its topic, key and value, is in Kafka.
  pub run-IsDelivered :
      (n : ℕ) (w : World)
      → IsValid w
      → IsDelivered w
      → IsValid (run env d n w).1 × IsDelivered (run env d n w).1
  run-IsDelivered n w v h =
      let r = run-IsReady n w (record { valid = v; delivered = h; current = tt }) in
      (r.valid, r.delivered)
