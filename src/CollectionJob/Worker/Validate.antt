-- ===== src/CollectionJob/Worker/Validate.antt =====
-- Which messages the worker accepts.
use contentflow.Prelude.{
  pos, ◌≤ℤ◌, is_blank, Sentinel, is_error, Result, ok, err, ◌<◌, ◌≡◌, ◌≢◌, ◌↔◌, ◌⊎◌, Bool, true,
  false, arith, eq_iff,
}
use contentflow.CollectionJob.Event.{CollectionRequested, Message, topic_collection_requested}
use contentflow.CollectionJob.Worker.Config.{validate_message}

-- What the worker asks of a message and of the request in it.
pub record IsWellFormed (msg : Message) (event : CollectionRequested) : Type 0 where
  pub topic : (msg.topic ≡ "") ⊎ (msg.topic ≡ topic_collection_requested)
  pub task : is_blank event.task_id ≡ false
  pub user : pos 1 ≤ℤ event.user_id
  pub source : pos 1 ≤ℤ event.source_id
  pub key : is_blank event.idempotency_key ≡ false
  pub attempt : pos 0 ≤ℤ event.attempt
  pub time : 0 < event.requested_at
  pub same_key : (msg.key ≡ "") ⊎ (msg.key ≡ event.idempotency_key)

validate_message-IsWellFormed :
    (msg : Message) (event : CollectionRequested)
    → validate_message msg event ≡ ok tt
    → IsWellFormed msg event
unfolding validate_message
validate_message-IsWellFormed msg event h = ground (
  arith,
  eq_iff msg.topic "",
  eq_iff msg.topic topic_collection_requested,
  eq_iff msg.key "",
  eq_iff msg.key event.idempotency_key,
)

valid_of_well_formed :
    (msg : Message) (event : CollectionRequested)
    → IsWellFormed msg event
    → validate_message msg event ≡ ok tt
unfolding validate_message
valid_of_well_formed msg event h = ground (
  arith,
  eq_iff msg.topic "",
  eq_iff msg.topic topic_collection_requested,
  eq_iff msg.key "",
  eq_iff msg.key event.idempotency_key,
)

abbrev pub is_invalid : Result (Unit {0}) → Bool
is_invalid (ok _) = false
is_invalid (err e) = is_error e Sentinel.invalid_message

refused :
    (msg : Message) (event : CollectionRequested)
    → (validate_message msg event ≢ ok tt)
    → is_invalid (validate_message msg event) ≡ true
unfolding validate_message is_error
refused msg event h = ground arith

-- A message passes the check exactly when it is well formed, and every refusal is the error for
-- invalid messages.
pub validate_message_iff :
    (msg : Message) (event : CollectionRequested)
    → ((validate_message msg event ≡ ok tt) ↔ IsWellFormed msg event)
      × ((validate_message msg event ≢ ok tt) → is_invalid (validate_message msg event) ≡ true)
validate_message_iff msg event =
    ((validate_message-IsWellFormed msg event, valid_of_well_formed msg event), refused msg event)
