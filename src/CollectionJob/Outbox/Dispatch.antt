-- ===== src/CollectionJob/Outbox/Dispatch.antt =====
-- One round of the dispatcher's loop, and the loop.
use contentflow.Prelude.{
  ℤ, pos, ◌+ℤ◌, wrap64, Err, message, Result, ◌>>◌, ok, err, All, All-mono, ℕ, suc, String, ◌≡◌,
  refl, Bool, true, false, Option, none, some, List, [], ◌∷◌, ◌++◌, arith,
}
use contentflow.CollectionJob.Env.{Env, World, Outcome, next_tick, observe_job}
use contentflow.CollectionJob.Outbox.{mark_sent, mark_failed}
use contentflow.CollectionJob.Backoff.{retry_backoff, add_duration}
use contentflow.CollectionJob.Outbox.Row.{OutboxEvent, to_sent, to_failed}
use contentflow.CollectionJob.Outbox.History.{IsValid, mark_sent-IsValid, mark_failed-IsValid}
use contentflow.CollectionJob.Outbox.Delivery.{
  IsDelivered, IsCurrent, IsWritten, IsWritten-append, IsWritten-last, IsDeliveredRow,
}
use contentflow.CollectionJob.Outbox.Rounds.{
  mark_failed-IsDelivered, mark_sent-IsDelivered, update_claimed-IsCurrent,
}
use contentflow.CollectionJob.Outbox.Dispatcher.{
  OutboxDispatcher, outbound, dispatch_one, dispatch_each,
}

-- What a loop over claimed events starts from and keeps.
pub record IsReady (w : World) (evs : List OutboxEvent) : Type 0 where
  pub valid : IsValid w
  pub delivered : IsDelivered w
  pub current : All (IsCurrent w.outbox) evs

-- Only the record of observations changes when an outcome is observed.
observe-IsReady :
    (has_observer : Bool) (topic : String) (status : Outcome) (w : World) (evs : List OutboxEvent)
    → IsReady w evs
    → IsReady (observe_job has_observer topic status w).1 evs
observe-IsReady true topic status w evs r = record {
  valid = record { numbered = r.valid.numbered; unique = r.valid.unique };
  delivered = r.delivered;
  current = r.current;
}
observe-IsReady false topic status w evs r = r

observe-written :
    (has_observer : Bool) (topic : String) (status : Outcome) (w : World)
    → (observe_job has_observer topic status w).1.written ≡ w.written
observe-written true topic status w = refl
observe-written false topic status w = refl

module _ (env : Env) (d : OutboxDispatcher) (now : ℕ) (claim_id : String) where
  -- the worlds in which the outcome of the write is recorded
  abbrev failed_world : OutboxEvent → World → World
  failed_world ev w = (observe_job d.has_observer ev.topic Outcome.failure (next_tick w)).1

  abbrev sent_world : OutboxEvent → World → World
  sent_world ev w =
      (observe_job d.has_observer ev.topic Outcome.success
        (record w { tick = suc w.tick; written = w.written ++ outbound ev ∷ [] })).1

  abbrev attempts_after : OutboxEvent → ℤ
  attempts_after ev = wrap64 (ev.attempts +ℤ pos 1)

  abbrev next_at : OutboxEvent → ℕ
  next_at ev = add_duration now (retry_backoff d.backoff (attempts_after ev))

  abbrev world_after : OutboxEvent → World → Option Err → World
  world_after ev w (some e) =
      (mark_failed env ev.id claim_id (attempts_after ev) (next_at ev) (message e)
        (failed_world ev w)).1
  world_after ev w none = (mark_sent env ev.id claim_id now (sent_world ev w)).1

  pub dispatch_one_lem :
      (ev : OutboxEvent) (w : World)
      → (dispatch_one env d now claim_id ev w).1 ≡ world_after ev w (env.fault w.tick)
  unfolding dispatch_one
  dispatch_one_lem ev w = ground arith

  failed-IsReady :
      (ev : OutboxEvent) (evs : List OutboxEvent) (e : Err) (w : World)
      → IsReady w (ev ∷ evs)
      → IsReady (world_after ev w (some e)) evs
  unfolding mark_failed
  failed-IsReady ev evs e w r =
      let ticked : IsReady (next_tick w) (ev ∷ evs) = record {
        valid = record { numbered = r.valid.numbered; unique = r.valid.unique };
        delivered = r.delivered;
        current = r.current;
      } in
      let r' =
        observe-IsReady d.has_observer ev.topic Outcome.failure (next_tick w) (ev ∷ evs) ticked in
      record {
        valid =
            mark_failed-IsValid env ev.id claim_id (attempts_after ev) (next_at ev) (message e)
              (failed_world ev w) r'.valid;
        delivered =
            mark_failed-IsDelivered env ev.id claim_id (attempts_after ev) (next_at ev) (message e)
              (failed_world ev w) r'.delivered;
        current =
            update_claimed-IsCurrent env evs ev.id claim_id
              (to_failed (attempts_after ev) (next_at ev) (message e)) (failed_world ev w)
              (λ m. refl) (λ m. refl) r'.current.1;
      }

  sent-IsReady :
      (ev : OutboxEvent) (evs : List OutboxEvent) (w : World)
      → IsReady w (ev ∷ evs)
      → IsReady (world_after ev w none) evs
  unfolding mark_sent
  sent-IsReady ev evs w r =
      let w1 = record w { tick = suc w.tick; written = w.written ++ outbound ev ∷ [] } in
      let ticked : IsReady w1 (ev ∷ evs) = record {
        valid = record { numbered = r.valid.numbered; unique = r.valid.unique };
        delivered =
            All-mono {P = IsDeliveredRow w.written}
              (λ m del sent. IsWritten-append _ w.written _ (del sent)) w.outbox r.delivered;
        current = r.current;
      } in
      let r' = observe-IsReady d.has_observer ev.topic Outcome.success w1 (ev ∷ evs) ticked in
      let out : IsWritten (outbound ev) (sent_world ev w).written =
        rw (observe-written d.has_observer ev.topic Outcome.success w1)
          (IsWritten-last (outbound ev) w.written) in
      record {
        valid = mark_sent-IsValid env ev.id claim_id now (sent_world ev w) r'.valid;
        delivered =
            mark_sent-IsDelivered env ev claim_id now (sent_world ev w) r'.current.0 out
              r'.delivered;
        current =
            update_claimed-IsCurrent env evs ev.id claim_id (to_sent now) (sent_world ev w)
              (λ m. refl) (λ m. refl) r'.current.1;
      }

  dispatch_one-IsReady :
      (ev : OutboxEvent) (evs : List OutboxEvent) (w : World)
      → IsReady w (ev ∷ evs)
      → IsReady (dispatch_one env d now claim_id ev w).1 evs
  dispatch_one-IsReady ev evs w r = rw dispatch_one_lem (by_outcome (env.fault w.tick))
    where
      by_outcome : (o : Option Err) → IsReady (world_after ev w o) evs
      by_outcome none = sent-IsReady ev evs w r
      by_outcome (some e) = failed-IsReady ev evs e w r

  done-IsReady : {evs : List OutboxEvent} (w : World) → IsReady w evs → IsReady w []
  done-IsReady w r = record { valid = r.valid; delivered = r.delivered; current = tt }

  pub dispatch_each-IsReady :
      (evs : List OutboxEvent) (w : World)
      → IsReady w evs
      → IsReady (dispatch_each env d now claim_id evs w).1 []
  unfolding dispatch_each
  dispatch_each-IsReady [] w r = r
  dispatch_each-IsReady (ev ∷ evs) w r =
      let (result, w') = dispatch_one env d now claim_id ev w in
      go result w' (dispatch_one-IsReady ev evs w r) (dispatch_each-IsReady evs w')
    where
      go :
          (result : Result (Unit {0})) (w' : World)
          → IsReady w' evs
          → (IsReady w' evs → IsReady (dispatch_each env d now claim_id evs w').1 [])
          → IsReady (((λ _. (result, w')) >> dispatch_each env d now claim_id evs) w).1 []
      go (ok u) w' r' rest = rest r'
      go (err e) w' r' rest = done-IsReady w' r'
