-- ===== src/CollectionJob/Dlq/Service.antt =====
-- internal/module/collectionjob/dlq.go: listing, replaying and closing dead letters. The times of
-- the DTOs are kept as times; their RFC 3339 text is not modelled.
use contentflow.Prelude.{
  ℤ, pos, Err, Proc, pure, raise, wrapping, ◌>>=◌, ◌>>◌, ℕ, String, Option, none, some, List, map,
}
use contentflow.CollectionJob.Event.{CollectionRequested, Payload, topic_collection_requested}
use contentflow.CollectionJob.Env.{Env, World, DlqStatus, read_clock, random_task_id, write}
use contentflow.CollectionJob.Dlq.{
  DlqItem, normalize_limit, normalize_offset, list, find_by_user_id_and_id, mark_replayed,
  mark_handled,
}

pub record DlqItemDto : Type 0 where
  pub id : ℕ
  pub task_id : String
  pub user_id : ℤ
  pub source_id : ℤ
  pub idempotency_key : String
  pub attempt : ℤ
  pub error_message : String
  pub status : DlqStatus
  pub created_at : ℕ
  pub updated_at : ℕ
  pub replayed_at : Option ℕ
  pub handled_at : Option ℕ

-- `toDLQItemDTO`: the payload is not shown
abbrev pub to_dlq_item_dto : DlqItem → DlqItemDto
to_dlq_item_dto item = record {
  id = item.id;
  task_id = item.task_id;
  user_id = item.user_id;
  source_id = item.source_id;
  idempotency_key = item.idempotency_key;
  attempt = item.attempt;
  error_message = item.error_message;
  status = item.status;
  created_at = item.created_at;
  updated_at = item.updated_at;
  replayed_at = item.replayed_at;
  handled_at = item.handled_at;
}

pub record ListDlqItemsResponse : Type 0 where
  pub items : List DlqItemDto
  pub total : ℕ
  pub limit : ℕ
  pub offset : ℕ

-- the event that a replay writes: the stored request under a new task id, from the first attempt
abbrev pub replay_event : DlqItem → String → CollectionRequested
replay_event item task_id = record item.payload {
  task_id = task_id;
  attempt = pos 0;
  next_attempt_at = 0;
}

module _ (env : Env) where
  -- `DLQService.List`
  unfoldable pub list_items : ℤ → Option DlqStatus → ℤ → ℤ → Proc World ListDlqItemsResponse
  unfolding list
  list_items user_id status limit offset = do
    let limit' = normalize_limit limit
    let offset' = normalize_offset offset
    r ← wrapping "list dlq items" (list env user_id status (pos limit') (pos offset'))
    pure (record { items = map to_dlq_item_dto r.0; total = r.1; limit = limit'; offset = offset' })

  write_replay : DlqItem → CollectionRequested → Proc World (Unit {0})
  write_replay item event = elim (env.marshal (Payload.requested event)) [
    | none ↦ raise (Err.wrap "marshal replay event" (Err.other "json"))
    | some value ↦ wrapping "write replay event" (
        write env (record {
          topic = topic_collection_requested;
          key = event.idempotency_key;
          value = value;
        }))
  ]

  -- `DLQService.Replay`
  unfoldable pub replay : ℤ → ℤ → Proc World DlqItemDto
  unfolding write_replay
  replay user_id id = do
    item ← wrapping "find dlq item" (find_by_user_id_and_id env user_id id)
    task_id ← random_task_id env
    write_replay item (replay_event item task_id)
    at ← read_clock env
    updated ← wrapping "mark dlq replayed" (mark_replayed env (pos item.id) at)
    pure (to_dlq_item_dto updated)

  -- `DLQService.MarkHandled`
  unfoldable pub mark_item_handled : ℤ → ℤ → Proc World DlqItemDto
  mark_item_handled user_id id = do
    found ← wrapping "find dlq item" (find_by_user_id_and_id env user_id id)
    at ← read_clock env
    updated ← wrapping "mark dlq handled" (mark_handled env id at)
    pure (to_dlq_item_dto updated)
