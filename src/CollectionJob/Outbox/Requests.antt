-- ===== src/CollectionJob/Outbox/Requests.antt =====
-- Requests for a source that is already queued.
use contentflow.Prelude.{
  if◌then◌else◌, Bool-cases, Option-cases, ℤ, Sentinel, Err, is_error, Result-cases, ok, err,
  first_where, first_where-append, first_where_single, ℕ, suc, String, ◌≡◌, refl, ◌∙◌, ◌⊎◌, inl,
  inr, true, false, Option, none, some, List, [], ◌∷◌, ◌++◌, arith, str_eq, eq_iff,
}
use contentflow.CollectionJob.Event.{CollectionRequested, Payload, topic_collection_requested}
use contentflow.CollectionJob.Env.{Env, OutboxEventModel, World, next_tick, CollectSourceRequest}
use contentflow.CollectionJob.Key.{idempotency_key}
use contentflow.CollectionJob.Outbox.Row.{
  OutboxEvent, CreateOutboxEventParams, to_event, is_active_for, new_row, OutboxPayload,
}
use contentflow.CollectionJob.Outbox.{
  create, find_active_by_topic_key, marshal_outbox_payload, create_new,
}
use contentflow.CollectionJob.Outbox.Producer.{
  request_collection, RequestCollectionResponse, new_request,
}

-- the active event of a topic and key
abbrev pub active : String → String → World → Option OutboxEventModel
active topic key w = first_where (is_active_for topic key) w.outbox

-- `Create` of an event that is active already returns that event, and inserts nothing.
create-again :
    (env : Env) (params : CreateOutboxEventParams) (w : World) (m : OutboxEventModel)
    (ev : OutboxEvent)
    → active params.topic params.key w ≡ some m
    → (create env params w).0 ≡ ok ev
    → (ev ≡ to_event m) × ((create env params w).1.outbox ≡ w.outbox)
unfolding create find_active_by_topic_key
create-again env params w m ev found done = ground arith

self : (s : String) → str_eq s s ≡ true
self s = (eq_iff s s).1 refl

abbrev IsEventOf : Option OutboxEventModel → OutboxEvent → Type 0
IsEventOf none ev = ⊥
IsEventOf (some m) ev = ev ≡ to_event m

-- an insert into an outbox without such an event
create-new :
    (env : Env) (topic key : String) (payload : List ℕ) (now : ℕ) (w : World)
    → active topic key w ≡ none
    → first_where
        (is_active_for topic key)
        (w.outbox ++ new_row topic key payload now w.serial ∷ [])
      ≡ some (new_row topic key payload now w.serial)
create-new env topic key payload now w missing = ground (
  arith,
  self topic,
  self key,
  first_where-append (is_active_for topic key) w.outbox
      (new_row topic key payload now w.serial ∷ []),
  first_where_single (is_active_for topic key) (new_row topic key payload now w.serial),
)

-- the rest of `Create` once the payload is marshalled
create_new-active :
    (env : Env) (params : CreateOutboxEventParams) (w : World) (ev : OutboxEvent) (payload : List ℕ)
    → marshal_outbox_payload env params.payload w ≡ (ok payload, w)
    → active params.topic params.key w ≡ none
    → (create_new env params w).0 ≡ ok ev
    → IsEventOf (active params.topic params.key (create_new env params w).1) ev
unfolding create_new find_active_by_topic_key
create_new-active env params w ev payload marshalled missing done = ground (
  arith,
  create-new env params.topic params.key payload params.created_at w missing,
  create-new env params.topic params.key payload (env.clock w.tick) w missing,
)

create_new-fails :
    (env : Env) (params : CreateOutboxEventParams) (w : World) (e : Err)
    → marshal_outbox_payload env params.payload w ≡ (err e, w)
    → (create_new env params w).0 ≡ err e
unfolding create_new
create_new-fails env params w e failed = ground arith

marshal-cases :
    (env : Env) (p : OutboxPayload)
    → ((b : List ℕ) × ((w : World) → marshal_outbox_payload env p w ≡ (ok b, w)))
      ⊎ ((e : Err) × ((w : World) → marshal_outbox_payload env p w ≡ (err e, w)))
marshal-cases env (OutboxPayload.bytes b) = inl (b, λ w. refl)
marshal-cases env (OutboxPayload.json p) = elim (Option-cases (env.marshal p)) [
  | inl bad ↦ inr (
    Err.wrap "marshal outbox payload" (Err.other "json"),
    λ w. rw (bad, marshal_outbox_payload) refl,
  )
  | inr (b, good) ↦ inl (b, λ w. rw (good, marshal_outbox_payload) refl)
]

create-missing :
    (env : Env) (params : CreateOutboxEventParams) (w : World)
    → active params.topic params.key w ≡ none
    → (create env params w ≡ create_new env params (next_tick w))
      ⊎ ((e : Err) × ((create env params w).0 ≡ err e))
unfolding create find_active_by_topic_key
create-missing env params w missing = elim (Option-cases (env.fault w.tick)) [
  | inl fine ↦ inl (ground arith)
  | inr (e, fault) ↦ elim (Bool-cases (is_error e Sentinel.record_not_found)) [
    | inl lost ↦ inl (ground arith)
    | inr bad ↦ inr (Err.wrap "find active outbox event" e, ground arith)
  ]
]

create-known :
    (env : Env) (params : CreateOutboxEventParams) (w : World) (ev : OutboxEvent)
    (m : OutboxEventModel)
    → active params.topic params.key w ≡ some m
    → (create env params w).0 ≡ ok ev
    → IsEventOf (active params.topic params.key (create env params w).1) ev
create-known env params w ev m found done =
    let (same, kept) = create-again env params w m ev found done in rw (kept, found) same

-- `Create` returns the active event of its topic and key.
create-active :
    (env : Env) (params : CreateOutboxEventParams) (w : World) (ev : OutboxEvent)
    → (create env params w).0 ≡ ok ev
    → IsEventOf (active params.topic params.key (create env params w).1) ev
create-active env params w ev done = elim (Option-cases (active params.topic params.key w)) [
  | inr (m, found) ↦ create-known env params w ev m found done
  | inl missing ↦ elim (create-missing env params w missing) [
    | inr (e, failed) ↦ absurd (ground arith)
    | inl goes_on ↦ elim (marshal-cases env params.payload) [
      | inr (e, failed) ↦
          absurd
            (ground (arith, create_new-fails env params (next_tick w) e (failed (next_tick w))))
      | inl (b, fine) ↦ rw goes_on (
          create_new-active env params (next_tick w) ev b (fine (next_tick w)) missing
            (rw (← goes_on) done))
    ]
  ]
]

-- what a request asks the outbox to create
abbrev asked : Env → CollectSourceRequest → World → CreateOutboxEventParams
asked env req w = record {
  topic = topic_collection_requested;
  key = idempotency_key req.source_id;
  payload =
      OutboxPayload.json
        (Payload.requested (new_request (env.random_id w.tick) req (env.clock (suc w.tick))));
  created_at = env.clock (suc (suc w.tick));
}

abbrev later : World → World
later w = next_tick (next_tick (next_tick w))

-- A request that succeeds has created its event, and answers with the task of the stored event.
pub record IsStored (env : Env) (req : CollectSourceRequest) (w : World)
    (resp : RequestCollectionResponse) (ev : OutboxEvent) (queued : CollectionRequested)
    : Type 0 where
  pub created : (create env (asked env req w) (later w)).0 ≡ ok ev
  pub outbox :
      (request_collection env req w).1.outbox ≡ (create env (asked env req w) (later w)).1.outbox
  pub stored : env.unmarshal ev.value ≡ some queued
  pub task :
      resp.task_id ≡ (if str_eq queued.task_id "" then env.random_id w.tick else queued.task_id)

request_collection-IsStored :
    (env : Env) (req : CollectSourceRequest) (w : World) (resp : RequestCollectionResponse)
    → (request_collection env req w).0 ≡ ok resp
    → (ev : OutboxEvent) × (queued : CollectionRequested) × IsStored env req w resp ev queued
unfolding request_collection
request_collection-IsStored env req w resp done =
    elim (Result-cases (create env (asked env req w) (later w)).0) [
      | inr (e, failed) ↦ absurd (ground arith)
      | inl (ev, fine) ↦ elim (Option-cases (env.unmarshal ev.value)) [
        | inl bad ↦ absurd (ground arith)
        | inr (queued, good) ↦ (
          ev,
          queued,
          record { created = fine; outbox = ground arith; stored = good; task = ground arith },
        )
      ]
    ]

-- the queued event of a source
abbrev pub queued_event : ℤ → World → Option OutboxEventModel
queued_event source_id w = active topic_collection_requested (idempotency_key source_id) w

first_task :
    (env : Env) (req : CollectSourceRequest) (w : World) (resp : RequestCollectionResponse)
    (m : OutboxEventModel) (r : CollectionRequested)
    → (request_collection env req w).0 ≡ ok resp
    → queued_event req.source_id (request_collection env req w).1 ≡ some m
    → env.unmarshal m.payload_json ≡ some r
    → str_eq r.task_id "" ≡ false
    → resp.task_id ≡ r.task_id
first_task env req w resp m r done found decoded named =
    let (ev, queued, s) = request_collection-IsStored env req w resp done in
    let same : ev ≡ to_event m =
      rw (← s.outbox, found) at (create-active env (asked env req w) (later w) ev s.created) in
    let stored = s.stored in let task = s.task in ground arith

-- While a request for a source is in the outbox, each further request for the source that succeeds
-- names the task of the queued request, as the first did, and adds no event to the outbox.
pub request_collection-once :
    (env : Env) (req again : CollectSourceRequest) (w : World)
    (first second : RequestCollectionResponse) (m : OutboxEventModel) (r : CollectionRequested)
    → again.source_id ≡ req.source_id
    → (request_collection env req w).0 ≡ ok first
    → let w' = (request_collection env req w).1 in
      queued_event req.source_id w' ≡ some m
      → env.unmarshal m.payload_json ≡ some r
      → str_eq r.task_id "" ≡ false
      → (request_collection env again w').0 ≡ ok second
      → (first.task_id ≡ r.task_id)
        × (second.task_id ≡ r.task_id)
        × ((request_collection env again w').1.outbox ≡ w'.outbox)
request_collection-once env req again w first second m r same done found decoded named done' =
    let w' = (request_collection env req w).1 in
    let (ev, queued, s) = request_collection-IsStored env again w' second done' in
    let here : queued_event again.source_id w' ≡ some m = rw same found in
    let (is_m, kept) = create-again env (asked env again w') (later w') m ev here s.created in
    let outbox = s.outbox ∙ kept in
    (
      first_task env req w first m r done found decoded named,
      first_task env again w' second m r done' (rw outbox here) decoded named,
      outbox,
    )
