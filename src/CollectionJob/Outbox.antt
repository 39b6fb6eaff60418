-- ===== src/CollectionJob/Outbox.antt =====
-- internal/module/collectionjob/outbox_repository.go: the events that wait to be written to Kafka.
pub mod Row
pub mod Ids
pub mod Claim
pub mod Unique
pub mod History
pub mod Delivery
pub mod Rounds
pub mod Dispatch
pub mod Runs
pub mod Dispatcher
pub mod Producer
pub mod Requests
use contentflow.Prelude.{
  ◌==◌, if◌then◌else◌, ℤ, Sentinel, Err, is_error, Result, Proc, pure, raise, gets, wrapping,
  modify, trying, ◌>>=◌, ◌>>◌, transaction, ok, err, take, select_where, first_where, count_where,
  update_where, order_by, ℕ, suc, String, true, false, not, Option, none, some, List, [], ◌∷◌, ◌++◌,
  map, str_eq,
}
use contentflow.CollectionJob.Env.{
  Env, World, rollback, statement, OutboxEventModel, next_tick, read_clock,
}
use contentflow.CollectionJob.Outbox.Row.{
  to_event, OutboxEvent, OutboxPayload, CreateOutboxEventParams, is_active_for, has_id, is_due,
  ready_for_claim, is_before, id_in, ids, normalize_limit, to_processing, new_row, is_claimed_by,
  to_sent, to_failed,
}

module _ (env : Env) where
  -- `marshalOutboxPayload`
  abbrev pub marshal_outbox_payload : OutboxPayload → Proc World (List ℕ)
  marshal_outbox_payload (OutboxPayload.bytes b) = pure b
  marshal_outbox_payload (OutboxPayload.json p) = elim (env.marshal p) [
    | none ↦ raise (Err.wrap "marshal outbox payload" (Err.other "json"))
    | some b ↦ pure b
  ]

  -- `findActiveByTopicKey`: no row is no error
  unfoldable pub find_active_by_topic_key : String → String → Proc World (Option OutboxEvent)
  find_active_by_topic_key topic key w = elim (env.fault w.tick) [
    | some e ↦
        if is_error e Sentinel.record_not_found
        then (ok none, next_tick w)
        else (err (Err.wrap "find active outbox event" e), next_tick w)
    | none ↦ elim (first_where (is_active_for topic key) w.outbox) [
      | none ↦ (ok none, next_tick w)
      | some m ↦ (ok (some (to_event m)), next_tick w)
    ]
  ]

  -- The insert of a row that is active, under the unique index of migration 000009
  abbrev insert_active : (ℕ → OutboxEventModel) → String → String → Proc World OutboxEventModel
  insert_active row topic key = do
    statement env
    λ w. elim (first_where (is_active_for topic key) w.outbox) [
      | some _ ↦ (err (Err.sentinel Sentinel.duplicated_key), w)
      | none ↦ (
        ok (row w.serial),
        record w { serial = suc w.serial; outbox = w.outbox ++ row w.serial ∷ [] },
      )
    ]

  abbrev after_insert : String → String → Result OutboxEventModel → Proc World OutboxEvent
  after_insert topic key (ok m) = pure (to_event m)
  after_insert topic key (err e) =
      if is_error e Sentinel.duplicated_key
      then (do
        existing ← find_active_by_topic_key topic key
        elim existing [ some ev ↦ pure ev | none ↦ raise (Err.wrap "create outbox event" e) ])
      else raise (Err.wrap "create outbox event" e)

  unfoldable pub create_new : CreateOutboxEventParams → Proc World OutboxEvent
  unfolding find_active_by_topic_key
  create_new params = do
    payload ← marshal_outbox_payload params.payload
    now ← if params.created_at == 0 then read_clock env else pure params.created_at
    r ← trying (insert_active (new_row params.topic params.key payload now) params.topic params.key)
    after_insert params.topic params.key r

  -- `GormOutboxRepository.Create`
  unfoldable pub create : CreateOutboxEventParams → Proc World OutboxEvent
  unfolding create_new
  create params = do
    existing ← find_active_by_topic_key params.topic params.key
    elim existing [ some ev ↦ pure ev | none ↦ create_new params ]

  -- `ListReady`
  unfoldable pub list_ready : ℕ → ℤ → Proc World (List OutboxEvent × ℕ)
  list_ready now limit = do
    wrapping "count ready outbox events" (statement env)
    total ← gets (λ w. count_where (is_due now) w.outbox)
    wrapping "list ready outbox events" (statement env)
    models ← gets (λ w.
        take (normalize_limit limit) (order_by is_before (select_where (is_due now) w.outbox)))
    pure (map to_event models, total)

  -- the rows that the transaction of `ClaimReady` locks
  abbrev pub claimable : ℕ → ℕ → World → List OutboxEventModel
  claimable now limit w = take limit (
      order_by is_before (
        select_where (λ m. not (env.is_locked w.tick m.id))
          (select_where (ready_for_claim now) w.outbox)))

  claim_in_tx : ℕ → ℕ → String → ℕ → Proc World (List OutboxEventModel × ℕ)
  claim_in_tx now limit claim_id locked_until = do
    wrapping "count claimable outbox events" (statement env)
    total ← gets (λ w. count_where (ready_for_claim now) w.outbox)
    wrapping "claim ready outbox events" (statement env)
    models ← gets (claimable now limit)
    elim models [
      | [] ↦ pure ([], total)
      | m ∷ ms ↦ do
        wrapping "mark outbox events processing" (statement env)
        modify (λ w. record w {
          outbox =
              update_where (id_in (ids (m ∷ ms))) (to_processing claim_id locked_until now)
                w.outbox;
        })
        statement env
        claimed ← gets (λ w. order_by is_before (select_where (id_in (ids (m ∷ ms))) w.outbox))
        pure (claimed, total)
    ]

  -- `ClaimReady`
  unfoldable pub claim_ready : ℕ → ℤ → String → ℕ → Proc World (List OutboxEvent × ℕ)
  unfolding claim_in_tx
  claim_ready now limit claim_id locked_until =
      if str_eq claim_id ""
      then raise (Err.other "claim ready outbox events: empty claim id")
      else do
        r ← transaction rollback (do
          r ← claim_in_tx now (normalize_limit limit) claim_id locked_until
          statement env
          pure r)
        pure (map to_event r.0, r.1)

  -- `FindByID`
  unfoldable pub find_by_id : ℕ → Proc World OutboxEvent
  find_by_id id w = elim (env.fault w.tick) [
    | some e ↦
        if is_error e Sentinel.record_not_found
        then (err (Err.sentinel Sentinel.outbox_event_not_found), next_tick w)
        else (err (Err.wrap "find outbox event" e), next_tick w)
    | none ↦ elim (first_where (has_id id) w.outbox) [
      | none ↦ (err (Err.sentinel Sentinel.outbox_event_not_found), next_tick w)
      | some m ↦ (ok (to_event m), next_tick w)
    ]
  ]

module _ (env : Env) where
  -- `updateClaimed`
  unfoldable pub update_claimed :
      ℕ → String → (OutboxEventModel → OutboxEventModel) → Proc World OutboxEvent
  unfolding find_by_id
  update_claimed id claim_id updates = do
    wrapping "update outbox event" (statement env)
    affected ← gets (λ w. count_where (is_claimed_by id claim_id) w.outbox)
    modify (λ w. record w { outbox = update_where (is_claimed_by id claim_id) updates w.outbox })
    elim (affected == 0) [
      | true ↦ raise (Err.sentinel Sentinel.outbox_claim_lost)
      | false ↦ find_by_id env id
    ]

  unfoldable pub mark_sent : ℕ → String → ℕ → Proc World OutboxEvent
  unfolding update_claimed
  mark_sent id claim_id sent_at = update_claimed id claim_id (to_sent sent_at)

  unfoldable pub mark_failed : ℕ → String → ℤ → ℕ → String → Proc World OutboxEvent
  unfolding update_claimed
  mark_failed id claim_id attempts next_attempt_at last_error =
      update_claimed id claim_id (to_failed attempts next_attempt_at last_error)
