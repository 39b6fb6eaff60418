-- ===== src/CollectionJob/Outbox/Claim.antt =====
-- What a claim of ready events takes, and what it leaves.
use contentflow.Prelude.{
  Bool-cases, ℤ, Result, ok, err, select_where, first_where, update_where, order_by, All, All-mono,
  All-select_where, All-order_by, All-take, ℕ, String, ◌≡◌, refl, inl, inr, Bool, true, not, some,
  List, [], ◌∷◌, map, arith,
}
use contentflow.CollectionJob.Env.{Env, World, OutboxEventModel, next_tick, OutboxStatus}
use contentflow.CollectionJob.Outbox.{claimable, claim_ready}
use contentflow.CollectionJob.Outbox.Row.{
  has_id, id_in, ids, ready_for_claim, is_before, normalize_limit, to_processing, OutboxEvent,
  to_event,
}
use contentflow.CollectionJob.Outbox.Ids.{IsNumbered, found_by_id, id_in-found}

-- found under its own id, and ready
abbrev pub IsReadyRow : ℕ → List OutboxEventModel → OutboxEventModel → Type 0
IsReadyRow now ms m = (first_where (has_id m.id) ms ≡ some m) × (ready_for_claim now m ≡ true)

pub claimable-IsReadyRow :
    (env : Env) (now limit : ℕ) (w : World) (n : ℕ)
    → IsNumbered n w.outbox
    → All (IsReadyRow now w.outbox) (claimable env now limit w)
claimable-IsReadyRow env now limit w n h = All-take (IsReadyRow now w.outbox) limit _ (
    All-order_by (IsReadyRow now w.outbox) is_before _ (
      All-mono {P = λ m. IsReadyRow now w.outbox m × (not (env.is_locked w.tick m.id) ≡ true)}
        (λ m f. f.0) _
        (All-select_where (IsReadyRow now w.outbox) _ _ (
          All-select_where (λ m. first_where (has_id m.id) w.outbox ≡ some m) (ready_for_claim now)
            w.outbox (found_by_id n w.outbox h)))))

-- the chosen rows of the table are ready
pub chosen-ready :
    (env : Env) (now limit : ℕ) (w w' : World) (n : ℕ) (m : OutboxEventModel)
    → IsNumbered n w.outbox
    → w'.outbox ≡ w.outbox
    → first_where (has_id m.id) w.outbox ≡ some m
    → id_in (ids (claimable env now limit w')) m ≡ true
    → ready_for_claim now m ≡ true
chosen-ready env now limit w w' n m h same f listed =
    id_in-found (λ x. ready_for_claim now x ≡ true) w'.outbox (claimable env now limit w') m
      (rw same f) (claimable-IsReadyRow env now limit w' n (rw same h)) listed

abbrev two_ticks : World → World
two_ticks w = next_tick (next_tick w)

-- Every event that a claim returns is leased to the claim until the end that it asked for.
abbrev pub IsLeased : String → ℕ → OutboxEvent → Type 0
IsLeased claim_id until ev =
    (ev.status ≡ OutboxStatus.processing) × (ev.claim_id ≡ claim_id) × (ev.locked_until ≡ until)

abbrev IsLeasedRow : String → ℕ → OutboxEventModel → Type 0
IsLeasedRow claim_id until m =
    (m.status ≡ OutboxStatus.processing) × (m.claim_id ≡ claim_id) × (m.locked_until ≡ some until)

select-updated :
    (p : OutboxEventModel → Bool) (claim_id : String) (until now : ℕ) (ms : List OutboxEventModel)
    → ((x : OutboxEventModel) → p (to_processing claim_id until now x) ≡ p x)
    → All
        (IsLeasedRow claim_id until)
        (select_where p (update_where p (to_processing claim_id until now) ms))
unfolding select_where update_where
select-updated p claim_id until now [] keep = tt
select-updated p claim_id until now (x ∷ xs) keep = elim (Bool-cases (p x)) [
  | inl hit ↦
      rw (hit, keep x, hit) ((refl, refl, refl), select-updated p claim_id until now xs keep)
  | inr miss ↦ rw (miss, miss) (select-updated p claim_id until now xs keep)
]

id_in-processing :
    (is : List ℕ) (claim_id : String) (until now : ℕ) (x : OutboxEventModel)
    → id_in is (to_processing claim_id until now x) ≡ id_in is x
unfolding id_in
id_in-processing [] claim_id until now x = refl
id_in-processing (i ∷ is) claim_id until now x =
    ground (arith, id_in-processing is claim_id until now x)

All-to_event :
    (claim_id : String) (until : ℕ) (ms : List OutboxEventModel)
    → All (IsLeasedRow claim_id until) ms
    → All (IsLeased claim_id until) (map to_event ms)
All-to_event claim_id until [] h = tt
All-to_event claim_id until (m ∷ ms) h = (ground arith, All-to_event claim_id until ms h.1)

claimed-IsLeased :
    (is : List ℕ) (claim_id : String) (until now : ℕ) (ms : List OutboxEventModel)
    → All (IsLeased claim_id until) (
        map to_event (
          order_by is_before (
            select_where
              (id_in is)
              (update_where (id_in is) (to_processing claim_id until now) ms))))
claimed-IsLeased is claim_id until now ms = All-to_event claim_id until _ (
    All-order_by (IsLeasedRow claim_id until) is_before _
      (select-updated (id_in is) claim_id until now ms (id_in-processing is claim_id until now)))

-- the events that a claim returned; an error returns none
abbrev pub returned : Result (List OutboxEvent × ℕ) → List OutboxEvent
returned (ok (evs, total)) = evs
returned (err e) = []

-- Every event that a claim of ready events returns is leased to it, until the end that it asked for.
pub claim_ready-IsLeased :
    (env : Env) (now : ℕ) (limit : ℤ) (claim_id : String) (until : ℕ) (w : World)
    → All (IsLeased claim_id until) (returned (claim_ready env now limit claim_id until w).0)
unfolding claim_ready
claim_ready-IsLeased env now limit claim_id until w = ground (
  arith,
  claimed-IsLeased (ids (claimable env now (normalize_limit limit) (two_ticks w))) claim_id until
      now w.outbox,
)
