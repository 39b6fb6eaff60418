-- ===== src/CollectionJob/Outbox/Row.antt =====
-- internal/module/collectionjob/outbox_repository.go and outbox.go: the rows of the outbox, the
-- conditions on them, and what the updates write.
use contentflow.Prelude.{
  ltb, leb, ◌==◌, if◌then◌else◌, ℤ, pos, pos_part, leb_ℤ, ℕ, String, Bool, true, false, ◌&&◌, ◌||◌,
  Option, none, some, List, [], ◌∷◌, map, str_eq,
}
use contentflow.CollectionJob.Event.{Payload}
use contentflow.CollectionJob.Env.{OutboxEventModel, OutboxStatus}
use contentflow.CollectionJob.Execution.Row.{locked_until_or_zero}

pub record OutboxEvent : Type 0 where
  pub id : ℕ
  pub topic : String
  pub key : String
  pub value : List ℕ
  pub status : OutboxStatus
  pub attempts : ℤ
  pub next_attempt_at : ℕ
  pub last_error : String
  pub claim_id : String
  pub locked_until : ℕ
  pub created_at : ℕ
  pub updated_at : ℕ
  pub sent_at : Option ℕ

-- `Payload any`: bytes are stored as they are, the rest is marshalled.
pub data OutboxPayload : Type 0 where
  bytes : List ℕ → OutboxPayload
  json : Payload → OutboxPayload

pub record CreateOutboxEventParams : Type 0 where
  pub topic : String
  pub key : String
  pub payload : OutboxPayload
  pub created_at : ℕ

abbrev pub to_event : OutboxEventModel → OutboxEvent
to_event m = record {
  id = m.id;
  topic = m.topic;
  key = m.event_key;
  value = m.payload_json;
  status = m.status;
  attempts = m.attempts;
  next_attempt_at = m.next_attempt_at;
  last_error = m.last_error;
  claim_id = m.claim_id;
  locked_until = locked_until_or_zero m.locked_until;
  created_at = m.created_at;
  updated_at = m.updated_at;
  sent_at = m.sent_at;
}

-- `activeOutboxStatuses` and `isActiveOutboxStatus`
abbrev pub is_active_outbox_status : OutboxStatus → Bool
is_active_outbox_status OutboxStatus.pending = true
is_active_outbox_status OutboxStatus.failed = true
is_active_outbox_status OutboxStatus.processing = true
is_active_outbox_status _ = false

abbrev is_waiting : OutboxStatus → Bool
is_waiting OutboxStatus.pending = true
is_waiting OutboxStatus.failed = true
is_waiting _ = false

abbrev is_processing : OutboxStatus → Bool
is_processing OutboxStatus.processing = true
is_processing _ = false

-- `topic = ? AND event_key = ? AND status IN ?`
abbrev pub is_active_for : String → String → OutboxEventModel → Bool
is_active_for topic key m =
    str_eq m.topic topic && str_eq m.event_key key && is_active_outbox_status m.status

abbrev pub has_id : ℕ → OutboxEventModel → Bool
has_id id m = m.id == id

-- SQL's `locked_until <= ?`, which is not true of NULL
abbrev is_over : Option ℕ → ℕ → Bool
is_over none now = false
is_over (some until) now = leb until now

-- `next_attempt_at <= ?` of a waiting row, as `ListReady` asks
abbrev pub is_due : ℕ → OutboxEventModel → Bool
is_due now m = is_waiting m.status && leb m.next_attempt_at now

-- `outboxReadyForClaimFilter`
abbrev pub ready_for_claim : ℕ → OutboxEventModel → Bool
ready_for_claim now m =
    (is_waiting m.status && leb m.next_attempt_at now)
    || (is_processing m.status && is_over m.locked_until now)

-- `ORDER BY next_attempt_at ASC, id ASC`
abbrev pub is_before : OutboxEventModel → OutboxEventModel → Bool
is_before x y =
    ltb x.next_attempt_at y.next_attempt_at
    || (x.next_attempt_at == y.next_attempt_at && leb x.id y.id)

-- `id IN ?`
unfoldable pub id_in : List ℕ → OutboxEventModel → Bool
id_in [] m = false
id_in (i ∷ is) m = m.id == i || id_in is m

abbrev pub ids : List OutboxEventModel → List ℕ
ids = map (λ m. m.id)

abbrev pub normalize_limit : ℤ → ℕ
normalize_limit limit = if leb_ℤ limit (pos 0) then 100 else pos_part limit

abbrev pub to_processing : String → ℕ → ℕ → OutboxEventModel → OutboxEventModel
to_processing claim_id locked_until now m = record m {
  status = OutboxStatus.processing;
  claim_id = claim_id;
  locked_until = some locked_until;
  updated_at = now;
}

abbrev pub new_row : String → String → List ℕ → ℕ → ℕ → OutboxEventModel
new_row topic key payload now id = record {
  id = id;
  topic = topic;
  event_key = key;
  payload_json = payload;
  status = OutboxStatus.pending;
  attempts = pos 0;
  next_attempt_at = now;
  last_error = "";
  claim_id = "";
  locked_until = none;
  created_at = now;
  updated_at = now;
  sent_at = none;
}

-- `id = ? AND status = 'processing' AND claim_id = ?`
abbrev pub is_claimed_by : ℕ → String → OutboxEventModel → Bool
is_claimed_by id claim_id m = m.id == id && is_processing m.status && str_eq m.claim_id claim_id

abbrev pub to_sent : ℕ → OutboxEventModel → OutboxEventModel
to_sent sent_at m = record m {
  status = OutboxStatus.sent;
  sent_at = some sent_at;
  updated_at = sent_at;
  last_error = "";
  claim_id = "";
  locked_until = none;
}

abbrev pub to_failed : ℤ → ℕ → String → OutboxEventModel → OutboxEventModel
to_failed attempts next_attempt_at last_error m = record m {
  status = OutboxStatus.failed;
  attempts = attempts;
  next_attempt_at = next_attempt_at;
  last_error = last_error;
  updated_at = next_attempt_at;
  claim_id = "";
  locked_until = none;
}
