-- ===== src/CollectionJob/Outbox/Delivery.antt =====
-- An event of the outbox is marked sent only once it is in Kafka.
use contentflow.Prelude.{
  ℤ, select_where, first_where, update_where, order_by, All, All-update_where, All-mono,
  All-select_where, All-order_by, ℕ, String, ◌≡◌, refl, ap, ◌⊎◌, inl, inr, Bool, true, some, List,
  [], ◌∷◌, ◌++◌, map, arith,
}
use contentflow.CollectionJob.Event.{Event}
use contentflow.CollectionJob.Env.{Env, World, OutboxEventModel, OutboxStatus, next_tick}
use contentflow.CollectionJob.Outbox.{claim_ready, claimable}
use contentflow.CollectionJob.Outbox.Row.{
  has_id, id_in, ids, OutboxEvent, to_event, is_before, normalize_limit, to_processing,
}
use contentflow.CollectionJob.Outbox.Ids.{IsNumbered, IsNumbered-update, found_by_id, same_row}
use contentflow.CollectionJob.Outbox.Claim.{returned}
use contentflow.CollectionJob.Outbox.Dispatcher.{outbound}

-- the event was written
abbrev pub IsWritten : Event → List Event → Type 0
IsWritten e [] = ⊥
IsWritten e (x ∷ xs) = (x ≡ e) ⊎ IsWritten e xs

pub IsWritten-append : (e : Event) (xs ys : List Event) → IsWritten e xs → IsWritten e (xs ++ ys)
IsWritten-append e [] ys h = absurd h
IsWritten-append e (x ∷ xs) ys (inl p) = inl p
IsWritten-append e (x ∷ xs) ys (inr h) = inr (IsWritten-append e xs ys h)

pub IsWritten-last : (e : Event) (xs : List Event) → IsWritten e (xs ++ e ∷ [])
IsWritten-last e [] = inl refl
IsWritten-last e (x ∷ xs) = inr (IsWritten-last e xs)

abbrev pub IsDeliveredRow : List Event → OutboxEventModel → Type 0
IsDeliveredRow written m = m.status ≡ OutboxStatus.sent → IsWritten (outbound (to_event m)) written

-- Every event marked sent was written.
abbrev pub IsDelivered : World → Type 0
IsDelivered w = All (IsDeliveredRow w.written) w.outbox

-- The event is what the table holds under its id.
abbrev pub IsCurrent : List OutboxEventModel → OutboxEvent → Type 0
IsCurrent ms ev = All (λ m. m.id ≡ ev.id → outbound (to_event m) ≡ outbound ev) ms

-- the rows that `order_by` and `select_where` take from a numbered table are current
chosen-IsCurrent :
    (n : ℕ) (ms chosen : List OutboxEventModel)
    → IsNumbered n ms
    → All (λ x. first_where (has_id x.id) ms ≡ some x) chosen
    → All (IsCurrent ms) (map to_event chosen)
chosen-IsCurrent n ms [] h f = tt
chosen-IsCurrent n ms (x ∷ xs) h f = (
  All-mono {P = λ m. first_where (has_id m.id) ms ≡ some m}
      (λ m found e. ap (λ r. outbound (to_event r)) (same_row ms m x found f.0 e)) ms
      (found_by_id n ms h),
  chosen-IsCurrent n ms xs h f.1,
)

All-found :
    (n : ℕ) (ms : List OutboxEventModel) (p : OutboxEventModel → Bool)
    → IsNumbered n ms
    → All (λ x. first_where (has_id x.id) ms ≡ some x) (order_by is_before (select_where p ms))
All-found n ms p h = All-order_by _ is_before _ (
    All-mono {P = λ x. (first_where (has_id x.id) ms ≡ some x) × (p x ≡ true)} (λ x f. f.0) _
      (All-select_where (λ x. first_where (has_id x.id) ms ≡ some x) p ms (found_by_id n ms h)))

claimed-IsCurrent :
    (n : ℕ) (ms : List OutboxEventModel) (is : List ℕ) (claim_id : String) (until now : ℕ)
    → IsNumbered n ms
    → let ms' = update_where (id_in is) (to_processing claim_id until now) ms in
      All (IsCurrent ms') (map to_event (order_by is_before (select_where (id_in is) ms')))
claimed-IsCurrent n ms is claim_id until now h =
    let ms' = update_where (id_in is) (to_processing claim_id until now) ms in
    let h' : IsNumbered n ms' =
      IsNumbered-update n (id_in is) (to_processing claim_id until now) ms (λ m. refl) h in
    chosen-IsCurrent n ms' _ h' (All-found n ms' (id_in is) h')

-- What a claim returns is what the table then holds, and no row becomes sent.
pub claim_ready-IsCurrent :
    (env : Env) (now : ℕ) (limit : ℤ) (claim_id : String) (until : ℕ) (w : World)
    → IsNumbered w.serial w.outbox
    → let (r, w') = claim_ready env now limit claim_id until w in
      All (IsCurrent w'.outbox) (returned r)
unfolding claim_ready
claim_ready-IsCurrent env now limit claim_id until w h = ground (
  arith,
  claimed-IsCurrent w.serial w.outbox
      (ids (claimable env now (normalize_limit limit) (next_tick (next_tick w)))) claim_id until now
      h,
)

pub claim_ready-IsDelivered :
    (env : Env) (now : ℕ) (limit : ℤ) (claim_id : String) (until : ℕ) (w : World)
    → IsDelivered w
    → IsDelivered (claim_ready env now limit claim_id until w).1
unfolding claim_ready
claim_ready-IsDelivered env now limit claim_id until w h = ground (
  arith,
  h,
  All-update_where (IsDeliveredRow w.written)
      (id_in (ids (claimable env now (normalize_limit limit) (next_tick (next_tick w)))))
      (to_processing claim_id until now) w.outbox (λ x d hit sent. absurd (processing≢sent sent)) h,
)
  where
    processing≢sent : OutboxStatus.processing ≡ OutboxStatus.sent → ⊥
    processing≢sent e = cc
