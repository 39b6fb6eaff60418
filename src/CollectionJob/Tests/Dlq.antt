-- ===== src/CollectionJob/Tests/Dlq.antt =====
-- The dead letters on concrete items.
use contentflow.CollectionJob.Event.{Payload}
use contentflow.Prelude.{
  pos, ◌≤ℤ◌, is_ok, select_where, first_where, count_where, update_where, order_by, All, ◌≤◌, ◌≡◌,
  refl, false, none, [], ◌∷◌, ◌++◌,
}
use contentflow.CollectionJob.Env.{DlqStatus}
use contentflow.CollectionJob.Tests.Data.{request, encode, calm, dead_letter, dlq_world}
use contentflow.CollectionJob.Dlq.{
  find_by_user_id_and_id, item_with, DlqItem, normalize_limit, normalize_offset, to_replayed, list,
  mark_replayed,
}
use contentflow.CollectionJob.Dlq.Service.{
  list_items, replay, mark_item_handled, DlqItemDto, to_dlq_item_dto,
}
use contentflow.CollectionJob.Dlq.Replay.{foreign_item, replay-ok, requeue}
use contentflow.CollectionJob.Dlq.Listing.{IsOwn, list_items-IsOwn}

foreign_item_example :
    ((is_ok (replay calm (pos 6) (pos 1) dlq_world).0 ≡ false)
      × ((replay calm (pos 6) (pos 1) dlq_world).1.written ≡ [])
      × ((replay calm (pos 6) (pos 1) dlq_world).1.dlq_items ≡ dlq_world.dlq_items))
    × ((is_ok (mark_item_handled calm (pos 6) (pos 1) dlq_world).0 ≡ false)
        × ((mark_item_handled calm (pos 6) (pos 1) dlq_world).1.dlq_items ≡ dlq_world.dlq_items))
unfolding first_where
foreign_item_example = foreign_item calm (pos 6) (pos 1) dlq_world refl

abbrev found_item : DlqItem
found_item = item_with dead_letter request

abbrev replayed_item : DlqItemDto
replayed_item = to_dlq_item_dto (item_with (to_replayed 1003 dead_letter) request)

replay-ok_example :
    ((replay calm (pos 5) (pos 1) dlq_world).1.written
      ≡ []
        ++ requeue
            (encode (
              Payload.requested
                (record request { task_id = "claim-a"; attempt = pos 0; next_attempt_at = 0 })))
            found_item
          ∷ [])
    × (DlqStatus.replayed ≡ DlqStatus.replayed)
    × (pos 1 ≤ℤ pos 5 → pos 5 ≡ pos 5)
unfolding replay find_by_user_id_and_id mark_replayed first_where update_where count_where
replay-ok_example =
    replay-ok calm encode (λ p. refl) (pos 5) (pos 1) dlq_world found_item replayed_item refl refl

list_items-IsOwn_example :
    (1 ≤ 100) × (1 ≤ 100) × (100 ≤ 100) × All (IsOwn (pos 5)) (to_dlq_item_dto found_item ∷ [])
unfolding list_items list normalize_limit normalize_offset order_by select_where count_where
list_items-IsOwn_example =
    list_items-IsOwn calm (pos 5) none (pos 500) (pos 0) dlq_world
      (record { items = to_dlq_item_dto found_item ∷ []; total = 1; limit = 100; offset = 0 }) refl
