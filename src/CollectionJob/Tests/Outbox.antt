-- ===== src/CollectionJob/Tests/Outbox.antt =====
-- The outbox on concrete events.
use contentflow.Prelude.{
  pos, wrap64, length, select_where, first_where, count_where, update_where, order_by, All, String,
  ◌≡◌, refl, List, [], ◌∷◌, arith,
}
use contentflow.CollectionJob.Outbox.Row.{OutboxPayload, id_in}
use contentflow.CollectionJob.Backoff.{add_duration, retry_backoff}
use contentflow.CollectionJob.Key.{idempotency_key}
use contentflow.CollectionJob.Outbox.Producer.{request_collection, queued_response}
use contentflow.CollectionJob.Outbox.Requests.{request_collection-once}
use contentflow.CollectionJob.Outbox.{
  find_active_by_topic_key, claim_ready, mark_sent, mark_failed, create,
}
use contentflow.CollectionJob.Tests.Data.{
  stormy, outbox_world, dispatcher, calm, request, waiting_row, source_seven,
}
use contentflow.CollectionJob.Outbox.Dispatcher.{OutboxDispatcher}
use contentflow.CollectionJob.Outbox.Dispatcher
use contentflow.CollectionJob.Outbox.History.{IsValid, Op, run-IsValid}
use contentflow.CollectionJob.Outbox.History
use contentflow.CollectionJob.Outbox.Delivery.{IsDelivered}
use contentflow.CollectionJob.Outbox.Claim.{returned, claim_ready-IsLeased, IsLeased}
use contentflow.CollectionJob.Outbox.Runs.{run-IsDelivered}

outbox_world-IsValid : IsValid outbox_world
unfolding first_where
outbox_world-IsValid = record {
  numbered = (omega arith, refl, (omega arith, refl, (omega arith, refl, tt)));
  unique = (refl, (refl, (refl, tt)));
}

outbox_world-IsDelivered : IsDelivered outbox_world
outbox_world-IsDelivered = ground arith

run-IsDelivered_example :
    IsValid (Dispatcher.run stormy dispatcher 2 outbox_world).1
    × IsDelivered (Dispatcher.run stormy dispatcher 2 outbox_world).1
run-IsDelivered_example =
    run-IsDelivered stormy dispatcher 2 outbox_world outbox_world-IsValid outbox_world-IsDelivered

abbrev outbox_ops : List History.Op
outbox_ops =
    Op.creates (record {
      topic = "collection.requested";
      key = "collection:source:7";
      payload = OutboxPayload.bytes (1 ∷ []);
      created_at = 990;
    })
    ∷ Op.claims 1000 (pos 2) "claim-a" 4000
    ∷ Op.sends 1 "claim-a" 1010
    ∷ Op.fails 2 "claim-a" (pos 1) 1020 "connection reset"
    ∷ []

run-IsValid_example : IsValid (History.run calm outbox_ops outbox_world)
run-IsValid_example = run-IsValid calm outbox_ops outbox_world outbox_world-IsValid

claim_ready-IsLeased_example :
    All
      (IsLeased "claim-a" 4000)
      (returned (claim_ready calm 1000 (pos 0) "claim-a" 4000 outbox_world).0)
claim_ready-IsLeased_example = claim_ready-IsLeased calm 1000 (pos 0) "claim-a" 4000 outbox_world

-- with a write and a statement that fail, one of two events is written
written_test : length (Dispatcher.run stormy dispatcher 2 outbox_world).1.written ≡ 1
unfolding Dispatcher.run Dispatcher.dispatch_ready claim_ready order_by select_where
    Dispatcher.dispatch_each update_where id_in Dispatcher.dispatch_one mark_sent mark_failed
    count_where first_where add_duration retry_backoff wrap64
written_test = refl

claimed_test : length (returned (claim_ready calm 1000 (pos 0) "claim-a" 4000 outbox_world).0) ≡ 2
unfolding claim_ready order_by select_where update_where id_in count_where first_where
claimed_test = refl

request_collection-once_example :
    let w' = (request_collection calm source_seven outbox_world).1 in
    (◌≡◌ {A = String} "task-1" "task-1")
    × (◌≡◌ {A = String} "task-1" "task-1")
    × ((request_collection calm source_seven w').1.outbox ≡ w'.outbox)
unfolding request_collection create find_active_by_topic_key first_where idempotency_key
request_collection-once_example =
    request_collection-once calm source_seven source_seven outbox_world
      (queued_response "task-1" source_seven) (queued_response "task-1" source_seven) waiting_row
      request refl refl refl refl refl refl
