-- ===== src/CollectionJob/Outbox/Rounds.antt =====
-- The dispatcher's rounds keep the outbox valid and its sent events written.
use contentflow.Prelude.{
  ℤ, update_where, All, All-update_where, All-mono, All-zip, ℕ, String, ◌≡◌, sym, ◌∙◌, true, List,
  arith,
}
use contentflow.CollectionJob.Env.{Env, World, OutboxEventModel, OutboxStatus}
use contentflow.CollectionJob.Outbox.{update_claimed, mark_sent, mark_failed}
use contentflow.CollectionJob.Outbox.Row.{
  is_claimed_by, OutboxEvent, to_event, ids, to_sent, to_failed,
}
use contentflow.CollectionJob.Outbox.Delivery.{IsDelivered, IsWritten, IsDeliveredRow, IsCurrent}
use contentflow.CollectionJob.Outbox.Dispatcher.{outbound}

-- An update of a claimed row either happens or leaves the table as it was; nothing is written.
update_claimed_cases :
    (P : List OutboxEventModel → Type 0) (env : Env) (id : ℕ) (claim_id : String)
    (updates : OutboxEventModel → OutboxEventModel) (w : World)
    → P w.outbox
    → P (update_where (is_claimed_by id claim_id) updates w.outbox)
    → P (update_claimed env id claim_id updates w).1.outbox
unfolding update_claimed
update_claimed_cases P env id claim_id updates w old new = ground arith

update_claimed-written :
    (env : Env) (id : ℕ) (claim_id : String) (updates : OutboxEventModel → OutboxEventModel)
    (w : World)
    → (update_claimed env id claim_id updates w).1.written ≡ w.written
unfolding update_claimed
update_claimed-written env id claim_id updates w = ground arith

module _ (env : Env) where
  pub mark_failed-IsDelivered :
      (id : ℕ) (claim_id : String) (attempts : ℤ) (next : ℕ) (text : String) (w : World)
      → IsDelivered w
      → IsDelivered (mark_failed env id claim_id attempts next text w).1
  unfolding mark_failed
  mark_failed-IsDelivered id claim_id attempts next text w h =
      rw (update_claimed-written env id claim_id (to_failed attempts next text) w) (
        update_claimed_cases (All (IsDeliveredRow w.written)) env id claim_id
          (to_failed attempts next text) w h
          (All-update_where (IsDeliveredRow w.written) (is_claimed_by id claim_id)
            (to_failed attempts next text) w.outbox (λ m d hit sent. absurd (failed≢sent sent)) h))
    where
      failed≢sent : OutboxStatus.failed ≡ OutboxStatus.sent → ⊥
      failed≢sent e = cc

  pub mark_sent-IsDelivered :
      (ev : OutboxEvent) (claim_id : String) (at : ℕ) (w : World)
      → IsCurrent w.outbox ev
      → IsWritten (outbound ev) w.written
      → IsDelivered w
      → IsDelivered (mark_sent env ev.id claim_id at w).1
  unfolding mark_sent
  mark_sent-IsDelivered ev claim_id at w current out h =
      rw (update_claimed-written env ev.id claim_id (to_sent at) w) (
        update_claimed_cases (All (IsDeliveredRow w.written)) env ev.id claim_id (to_sent at) w h (
          All-mono
            {P = λ m.
              IsDeliveredRow w.written m × (m.id ≡ ev.id → outbound (to_event m) ≡ outbound ev)}
            (λ m both. both.0) _
            (All-update_where
              (λ m.
                IsDeliveredRow w.written m × (m.id ≡ ev.id → outbound (to_event m) ≡ outbound ev))
              (is_claimed_by ev.id claim_id) (to_sent at) w.outbox
              (λ m both hit. ((λ sent. rw (both.1 (hit_id m hit)) out), both.1))
              (All-zip _ _ w.outbox h current))))
    where
      hit_id : (m : OutboxEventModel) → is_claimed_by ev.id claim_id m ≡ true → m.id ≡ ev.id
      hit_id m hit = ground arith

  -- An update that keeps what is sent keeps an event current.
  pub update_claimed-IsCurrent :
      (evs : List OutboxEvent) (id : ℕ) (claim_id : String)
      (updates : OutboxEventModel → OutboxEventModel) (w : World)
      → ((m : OutboxEventModel) → (updates m).id ≡ m.id)
      → ((m : OutboxEventModel) → outbound (to_event (updates m)) ≡ outbound (to_event m))
      → All (IsCurrent w.outbox) evs
      → All (IsCurrent (update_claimed env id claim_id updates w).1.outbox) evs
  update_claimed-IsCurrent evs id claim_id updates w ids same h =
      update_claimed_cases (λ ms. All (IsCurrent ms) evs) env id claim_id updates w h
        (All-mono {P = IsCurrent w.outbox}
          (λ ev current.
            All-update_where (λ m. m.id ≡ ev.id → outbound (to_event m) ≡ outbound ev)
              (is_claimed_by id claim_id) updates w.outbox
              (λ m c hit e. same m ∙ c (sym (ids m) ∙ e)) current)
          evs h)
