-- ===== src/CollectionJob/Dlq/Replay.antt =====
-- Who may replay a dead letter, and what a replay does.
use contentflow.Prelude.{
  Option-cases, ℤ, pos, ◌≤ℤ◌, is_ok, ok, first_where, first_where-update_where, first_where_hit, ℕ,
  suc, ◌≡◌, refl, inl, inr, Bool, false, ◌&&◌, none, some, List, [], ◌∷◌, ◌++◌, arith,
}
use contentflow.CollectionJob.Event.{topic_collection_requested, Event, Payload}
use contentflow.CollectionJob.Env.{Env, World, DlqItemModel, DlqStatus}
use contentflow.CollectionJob.Dlq.{
  DlqItem, has_id, is_of_user, find_by_user_id_and_id, to_replayed, mark_replayed,
}
use contentflow.CollectionJob.Dlq.Service.{replay, mark_item_handled, DlqItemDto, replay_event}

-- The condition by which a user's item is looked up
abbrev pub is_item : ℤ → ℤ → DlqItemModel → Bool
is_item user_id id m = has_id id m && is_of_user user_id m

-- A replay, or a closing, of an item that the user does not own, or that is not there, fails: nothing
-- is written to Kafka and no item changes, whatever the database does.
pub foreign_item :
    (env : Env) (user_id id : ℤ) (w : World)
    → first_where (is_item user_id id) w.dlq_items ≡ none
    → ((is_ok (replay env user_id id w).0 ≡ false)
        × ((replay env user_id id w).1.written ≡ w.written)
        × ((replay env user_id id w).1.dlq_items ≡ w.dlq_items))
      × ((is_ok (mark_item_handled env user_id id w).0 ≡ false)
          × ((mark_item_handled env user_id id w).1.dlq_items ≡ w.dlq_items))
unfolding replay mark_item_handled find_by_user_id_and_id
foreign_item env user_id id w missing = (ground arith, ground arith)

-- a found item is the user's
find-own :
    (env : Env) (user_id id : ℤ) (w : World) (item : DlqItem)
    → (find_by_user_id_and_id env user_id id w).0 ≡ ok item
    → pos 1 ≤ℤ user_id
    → (item.user_id ≡ user_id) × (pos item.id ≡ id)
unfolding find_by_user_id_and_id
find-own env user_id id w item found some_user =
    elim (Option-cases (first_where (is_item user_id id) w.dlq_items)) [
      | inl missing ↦ ground arith
      | inr (m, hit) ↦ ground (arith, first_where_hit (is_item user_id id) w.dlq_items m hit)
    ]

-- the row that `find_by_id` sees after an update
update_status-ok :
    (env : Env) (id : ℤ) (at : ℕ) (w : World) (item : DlqItem)
    → (mark_replayed env id at w).0 ≡ ok item
    → (item.status ≡ DlqStatus.replayed) × (item.replayed_at ≡ some at)
unfolding mark_replayed find_by_user_id_and_id
update_status-ok env id at w item done =
    elim (Option-cases (first_where (is_item (pos 0) id) w.dlq_items)) [
      | inl missing ↦ ground (
        arith,
        first_where-update_where (is_item (pos 0) id) (has_id id) (to_replayed at) w.dlq_items
            (λ x. refl),
      )
      | inr (m, hit) ↦ ground (
        arith,
        first_where_hit (is_item (pos 0) id) w.dlq_items m hit,
        first_where-update_where (is_item (pos 0) id) (has_id id) (to_replayed at) w.dlq_items
            (λ x. refl),
      )
    ]

update_status-written :
    (env : Env) (id : ℤ) (at : ℕ) (w : World) → (mark_replayed env id at w).1.written ≡ w.written
unfolding mark_replayed find_by_user_id_and_id
update_status-written env id at w = ground arith

find_steps :
    (env : Env) (user_id id : ℤ) (w : World)
    → ((find_by_user_id_and_id env user_id id w).1.tick ≡ suc w.tick)
      × ((find_by_user_id_and_id env user_id id w).1.written ≡ w.written)
unfolding find_by_user_id_and_id
find_steps env user_id id w = ground arith

-- the replay of an item that was found
abbrev pub requeue : List ℕ → DlqItem → Event
requeue value item = record {
  topic = topic_collection_requested;
  key = item.payload.idempotency_key;
  value = value;
}

module _ (env : Env) (encode : Payload → List ℕ)
    (total : (p : Payload) → env.marshal p ≡ some (encode p)) (user_id id : ℤ) (w : World)
    (item : DlqItem) (dto : DlqItemDto)
    (found : (find_by_user_id_and_id env user_id id w).0 ≡ ok item)
    (done : (replay env user_id id w).0 ≡ ok dto) where
  replay-written :
      (replay env user_id id w).1.written
      ≡ w.written
        ++ requeue
            (encode (
              Payload.requested (record item.payload {
                task_id = env.random_id (suc w.tick);
                attempt = pos 0;
                next_attempt_at = 0;
              })))
            item
          ∷ []
  unfolding replay
  replay-written = grind (
    arith,
    total (Payload.requested (replay_event item (env.random_id (suc w.tick)))),
    find_steps env user_id id w,
    update_status-written,
  )

  replay-status : dto.status ≡ DlqStatus.replayed
  unfolding replay
  replay-status = grind (arith, update_status-ok)

-- A replay that succeeds has found an item, the user's own if a user is named; it writes one event,
-- the stored request under a new random task id, with attempt 0 and due at once; and it marks the item replayed.
pub replay-ok :
    (env : Env) (encode : Payload → List ℕ)
    (total : (p : Payload) → env.marshal p ≡ some (encode p)) (user_id id : ℤ) (w : World)
    (item : DlqItem) (dto : DlqItemDto)
    → (find_by_user_id_and_id env user_id id w).0 ≡ ok item
    → (replay env user_id id w).0 ≡ ok dto
    → ((replay env user_id id w).1.written
        ≡ w.written
          ++ requeue
              (encode (
                Payload.requested (record item.payload {
                  task_id = env.random_id (suc w.tick);
                  attempt = pos 0;
                  next_attempt_at = 0;
                })))
              item
            ∷ [])
      × (dto.status ≡ DlqStatus.replayed)
      × (pos 1 ≤ℤ user_id → item.user_id ≡ user_id)
replay-ok env encode total user_id id w item dto found done = (
  replay-written env encode total user_id id w item dto found done,
  replay-status env encode total user_id id w item dto found done,
  λ some_user. (find-own env user_id id w item found some_user).0,
)
