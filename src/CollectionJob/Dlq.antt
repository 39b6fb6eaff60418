-- ===== src/CollectionJob/Dlq.antt =====
-- internal/module/collectionjob/dlq_repository.go: the collection jobs that were given up.
pub mod Service
pub mod Replay
pub mod Listing
use contentflow.Prelude.{
  ltb, leb, ◌==◌, if◌then◌else◌, ℤ, pos, pos_part, ltb_ℤ, leb_ℤ, eq_ℤ, Sentinel, Err, is_error,
  Result, Proc, pure, raise, lift, gets, wrapping, modify, ◌>>=◌, ◌>>◌, ok, err, take, drop,
  select_where, first_where, count_where, update_where, order_by, ℕ, suc, String, Bool, true, false,
  ◌&&◌, ◌||◌, Option, none, some, List, [], ◌∷◌, ◌++◌,
}
use contentflow.CollectionJob.Event.{CollectionRequested, Payload}
use contentflow.CollectionJob.Env.{
  Env, World, DlqItemModel, DlqStatus, next_tick, statement, read_clock,
}

pub record DlqItem : Type 0 where
  pub id : ℕ
  pub task_id : String
  pub user_id : ℤ
  pub source_id : ℤ
  pub idempotency_key : String
  pub attempt : ℤ
  pub error_message : String
  pub payload : CollectionRequested
  pub status : DlqStatus
  pub created_at : ℕ
  pub updated_at : ℕ
  pub replayed_at : Option ℕ
  pub handled_at : Option ℕ

-- An id that the caller gives is an `int64`; rows have positive ids.
abbrev pub has_id : ℤ → DlqItemModel → Bool
has_id id m = eq_ℤ id (pos m.id)

-- `user_id = ?`, asked only for a positive user id
abbrev pub is_of_user : ℤ → DlqItemModel → Bool
is_of_user user_id m = if ltb_ℤ (pos 0) user_id then eq_ℤ m.user_id user_id else true

abbrev same_status : DlqStatus → DlqStatus → Bool
same_status DlqStatus.pending DlqStatus.pending = true
same_status DlqStatus.replayed DlqStatus.replayed = true
same_status DlqStatus.handled DlqStatus.handled = true
same_status _ _ = false

-- `status = ?`; `none` is the empty string, which asks nothing
abbrev pub has_status : Option DlqStatus → DlqItemModel → Bool
has_status none m = true
has_status (some s) m = same_status m.status s

-- `normalizeLimit` and `normalizeOffset` of dlq.go
unfoldable pub normalize_limit : ℤ → ℕ
normalize_limit limit =
    if leb_ℤ limit (pos 0) then 20 else if ltb_ℤ (pos 100) limit then 100 else pos_part limit

unfoldable pub normalize_offset : ℤ → ℕ
normalize_offset offset = pos_part offset

-- `ORDER BY created_at DESC, id DESC`
abbrev pub is_newer : DlqItemModel → DlqItemModel → Bool
is_newer x y = ltb y.created_at x.created_at || (x.created_at == y.created_at && leb y.id x.id)

abbrev new_row : CollectionRequested → String → List ℕ → ℕ → ℕ → DlqItemModel
new_row event text payload now id = record {
  id = id;
  task_id = event.task_id;
  user_id = event.user_id;
  source_id = event.source_id;
  idempotency_key = event.idempotency_key;
  attempt = event.attempt;
  error_message = text;
  payload_json = payload;
  status = DlqStatus.pending;
  created_at = now;
  updated_at = now;
  replayed_at = none;
  handled_at = none;
}

abbrev pub to_replayed : ℕ → DlqItemModel → DlqItemModel
to_replayed at m = record m { status = DlqStatus.replayed; updated_at = at; replayed_at = some at }

abbrev pub to_handled : ℕ → DlqItemModel → DlqItemModel
to_handled at m = record m { status = DlqStatus.handled; updated_at = at; handled_at = some at }

abbrev pub item_with : DlqItemModel → CollectionRequested → DlqItem
item_with m payload = record {
  id = m.id;
  task_id = m.task_id;
  user_id = m.user_id;
  source_id = m.source_id;
  idempotency_key = m.idempotency_key;
  attempt = m.attempt;
  error_message = m.error_message;
  payload = payload;
  status = m.status;
  created_at = m.created_at;
  updated_at = m.updated_at;
  replayed_at = m.replayed_at;
  handled_at = m.handled_at;
}

module _ (env : Env) where
  -- `dlqModelToItem`
  abbrev pub to_item : DlqItemModel → Result DlqItem
  to_item m = elim (env.unmarshal m.payload_json) [
    | none ↦ err (Err.wrap "unmarshal dlq payload" (Err.other "json"))
    | some payload ↦ ok (item_with m payload)
  ]

  -- the loop of `List`
  pub to_items : List DlqItemModel → Result (List DlqItem)
  to_items [] = ok []
  to_items (m ∷ ms) = elim (to_item m) [
    | err e ↦ err e
    | ok item ↦ elim (to_items ms) [ err e ↦ err e | ok items ↦ ok (item ∷ items) ]
  ]

  abbrev insert_row : (ℕ → DlqItemModel) → Proc World DlqItemModel
  insert_row row w = (
    ok (row w.serial),
    record w { serial = suc w.serial; dlq_items = w.dlq_items ++ row w.serial ∷ [] },
  )

  -- `Create`
  unfoldable pub create : CollectionRequested → String → ℕ → Proc World DlqItem
  create event text created_at = elim (env.marshal (Payload.requested event)) [
    | none ↦ raise (Err.wrap "marshal dlq payload" (Err.other "json"))
    | some payload ↦ do
      now ← if created_at == 0 then read_clock env else pure created_at
      wrapping "create dlq item" (statement env)
      m ← insert_row (new_row event text payload now)
      lift (to_item m)
  ]

  -- `List`
  unfoldable pub list : ℤ → Option DlqStatus → ℤ → ℤ → Proc World (List DlqItem × ℕ)
  unfolding to_items
  list user_id status limit offset = do
    wrapping "count dlq items" (statement env)
    let asked = λ (m : DlqItemModel). is_of_user user_id m && has_status status m
    total ← gets (λ w. count_where asked w.dlq_items)
    wrapping "list dlq items" (statement env)
    models ← gets (λ w.
        take (normalize_limit limit)
          (drop (normalize_offset offset) (order_by is_newer (select_where asked w.dlq_items))))
    items ← lift (to_items models)
    pure (items, total)

  -- `FindByUserIDAndID`
  unfoldable pub find_by_user_id_and_id : ℤ → ℤ → Proc World DlqItem
  find_by_user_id_and_id user_id id w = elim (env.fault w.tick) [
    | some e ↦
        if is_error e Sentinel.record_not_found
        then (err (Err.sentinel Sentinel.dlq_item_not_found), next_tick w)
        else (err (Err.wrap "find dlq item" e), next_tick w)
    | none ↦ elim (first_where (λ m. has_id id m && is_of_user user_id m) w.dlq_items) [
      | none ↦ (err (Err.sentinel Sentinel.dlq_item_not_found), next_tick w)
      | some m ↦ (to_item m, next_tick w)
    ]
  ]

  -- `FindByID`
  unfoldable pub find_by_id : ℤ → Proc World DlqItem
  unfolding find_by_user_id_and_id
  find_by_id id = find_by_user_id_and_id (pos 0) id

  -- `updateStatus`
  unfoldable pub update_status : ℤ → (DlqItemModel → DlqItemModel) → Proc World DlqItem
  unfolding find_by_id
  update_status id updates = do
    wrapping "update dlq item" (statement env)
    affected ← gets (λ w. count_where (has_id id) w.dlq_items)
    modify (λ w. record w { dlq_items = update_where (has_id id) updates w.dlq_items })
    elim (affected == 0) [
      | true ↦ raise (Err.sentinel Sentinel.dlq_item_not_found)
      | false ↦ find_by_id id
    ]

  unfoldable pub mark_replayed : ℤ → ℕ → Proc World DlqItem
  unfolding update_status
  mark_replayed id at = update_status id (to_replayed at)

  unfoldable pub mark_handled : ℤ → ℕ → Proc World DlqItem
  unfolding update_status
  mark_handled id at = update_status id (to_handled at)
