-- ===== src/CollectionJob/Outbox/Unique.antt =====
-- At most one active event for each topic and key.
use contentflow.Prelude.{
  if◌then◌else◌, Bool-cases, is_some, first_where, update_where, All, first_where-append,
  first_where-update_none, All-mono, String, ◌≡◌, inl, inr, Bool, true, false, ◌&&◌, none, List, [],
  ◌∷◌, ◌++◌, arith, eq_iff,
}
use contentflow.CollectionJob.Env.{OutboxEventModel, Env, World}
use contentflow.CollectionJob.Outbox.{create}
use contentflow.CollectionJob.Outbox.Row.{
  is_active_for, is_active_outbox_status, CreateOutboxEventParams,
}

abbrev pub clash : OutboxEventModel → List OutboxEventModel → Bool
clash m ms =
    is_active_outbox_status m.status && is_some (first_where (is_active_for m.topic m.event_key) ms)

-- No two active rows have the same topic and key.
abbrev pub IsUniqueActive : List OutboxEventModel → Type 0
IsUniqueActive [] = Unit {0}
IsUniqueActive (m ∷ ms) = (clash m ms ≡ false) × IsUniqueActive ms

-- An update that keeps topics and keys and makes no row of the table active.
pub record IsTame (p : OutboxEventModel → Bool) (u : OutboxEventModel → OutboxEventModel)
    (ms : List OutboxEventModel) : Type 0 where
  pub topic : (m : OutboxEventModel) → (u m).topic ≡ m.topic
  pub key : (m : OutboxEventModel) → (u m).event_key ≡ m.event_key
  pub active :
      All
        (λ m.
          p m ≡ true
          → is_active_outbox_status (u m).status ≡ true
          → is_active_outbox_status m.status ≡ true)
        ms

module _ (p : OutboxEventModel → Bool) (u : OutboxEventModel → OutboxEventModel) where
  abbrev Stays : OutboxEventModel → Type 0
  Stays m =
      p m ≡ true
      → is_active_outbox_status (u m).status ≡ true
      → is_active_outbox_status m.status ≡ true

  missing-update :
      (topic key : String) (ms : List OutboxEventModel)
      → IsTame p u ms
      → first_where (is_active_for topic key) ms ≡ none
      → first_where (is_active_for topic key) (update_where p u ms) ≡ none
  missing-update topic key ms tame h =
      first_where-update_none (is_active_for topic key) p u ms
        (All-mono {P = Stays} (λ m stays hit act. ground (arith, tame.topic m, tame.key m, stays))
          ms tame.active)
        h

  -- the row itself is changed
  clash-tame :
      (m : OutboxEventModel) (ms : List OutboxEventModel)
      → clash m ms ≡ false
      → (is_active_outbox_status (u m).status ≡ true → is_active_outbox_status m.status ≡ true)
      → IsTame p u (m ∷ ms)
      → clash (u m) (update_where p u ms) ≡ false
  clash-tame m ms h act tame =
      rw (tame.topic m, tame.key m)
        (ground (
          arith,
          act,
          missing-update m.topic m.event_key ms
              (record { topic = tame.topic; key = tame.key; active = tame.active.1 }),
        ))

  clash-update :
      (m : OutboxEventModel) (ms : List OutboxEventModel)
      → IsTame p u (m ∷ ms)
      → clash m ms ≡ false
      → clash (if p m then u m else m) (update_where p u ms) ≡ false
  clash-update m ms tame h = elim (Bool-cases (p m)) [
    | inl hit ↦ rw hit (clash-tame m ms h (tame.active.0 hit) tame)
    | inr miss ↦ rw miss (
        ground (
          arith,
          missing-update m.topic m.event_key ms
              (record { topic = tame.topic; key = tame.key; active = tame.active.1 }),
        ))
  ]

  pub IsUniqueActive-update :
      (ms : List OutboxEventModel)
      → IsTame p u ms
      → IsUniqueActive ms
      → IsUniqueActive (update_where p u ms)
  unfolding update_where
  IsUniqueActive-update [] tame h = tt
  IsUniqueActive-update (m ∷ ms) tame h = (
    clash-update m ms tame h.0,
    IsUniqueActive-update ms (record { topic = tame.topic; key = tame.key; active = tame.active.1 })
        h.1,
  )

pub IsUniqueActive-append :
    (ms : List OutboxEventModel) (m : OutboxEventModel)
    → IsUniqueActive ms
    → first_where (is_active_for m.topic m.event_key) ms ≡ none
    → IsUniqueActive (ms ++ m ∷ [])
unfolding first_where
IsUniqueActive-append [] m h new = (ground arith, tt)
IsUniqueActive-append (x ∷ xs) m h new = ground (
  arith,
  IsUniqueActive-append xs m h.1,
  first_where-append (is_active_for x.topic x.event_key) xs (m ∷ []),
  eq_iff m.topic x.topic,
  eq_iff x.topic m.topic,
  eq_iff m.event_key x.event_key,
  eq_iff x.event_key m.event_key,
)

create-IsUniqueActive :
    (env : Env) (params : CreateOutboxEventParams) (w : World)
    → IsUniqueActive w.outbox
    → IsUniqueActive (create env params w).1.outbox
unfolding create
create-IsUniqueActive env params w h = grind (arith, IsUniqueActive-append)
