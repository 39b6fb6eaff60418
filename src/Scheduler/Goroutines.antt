-- ===== src/Scheduler/Goroutines.antt =====
-- What the goroutines of a round hold.
use contentflow.Prelude.{
  if◌then◌else◌, Option-cases, length, count_where, ℕ, zero, suc, ◌≤◌, ◌≡◌, refl, ap, inl, inr,
  Bool, true, some, List, [], ◌∷◌, arith,
}
use mathlib.Core.Path.{subst}
use mathlib.Core.Option.{some-injective}
use contentflow.Sources.Repository.{ActiveSourceForCollection}
use contentflow.Scheduler.{Goroutine, start_workers, receive, collect_one, leave, all_gone}

-- the sources that workers are collecting
unfoldable pub held : List Goroutine → List ActiveSourceForCollection
held [] = []
held (Goroutine.idle ∷ ws) = held ws
held (Goroutine.holds x ∷ ws) = x ∷ held ws
held (Goroutine.gone ∷ ws) = held ws

module _ (p : ActiveSourceForCollection → Bool) where
  -- a worker has received the source
  abbrev pub HasReceived : ActiveSourceForCollection → List Goroutine → List Goroutine → Type 0
  HasReceived src ws us =
      (count_where p (held us)
        ≡ (if p src then suc (count_where p (held ws)) else count_where p (held ws)))
      × (length us ≡ length ws)

  pub receive-HasReceived :
      (n : ℕ) (src : ActiveSourceForCollection) (ws us : List Goroutine)
      → receive n src ws ≡ some us
      → HasReceived src ws us
  unfolding receive held count_where
  receive-HasReceived n src [] us h = absurd (ground arith)
  receive-HasReceived zero src (Goroutine.idle ∷ ws) us h =
      subst (HasReceived src (Goroutine.idle ∷ ws)) (some-injective (Goroutine.holds src ∷ ws) us h)
        (refl, refl)
  receive-HasReceived zero src (Goroutine.holds x ∷ ws) us h = absurd (ground arith)
  receive-HasReceived zero src (Goroutine.gone ∷ ws) us h = absurd (ground arith)
  receive-HasReceived (suc n) src (v ∷ ws) us h = elim (Option-cases (receive n src ws)) [
    | inl missing ↦ absurd (ground (arith, h, missing))
    | inr (vs, there) ↦
        let (counts, lengths) = receive-HasReceived n src ws vs there in
        let found : some (v ∷ vs) ≡ some us = ground (arith, h, there) in
        subst (HasReceived src (v ∷ ws)) (some-injective (v ∷ vs) us found)
          (elim v as (λ u. HasReceived src (u ∷ ws) (u ∷ vs)) [
            | Goroutine.idle ↦ (counts, ground (arith, lengths))
            | Goroutine.holds x ↦ (ground (arith, counts), ground (arith, lengths))
            | Goroutine.gone ↦ (counts, ground (arith, lengths))
          ])
  ]

  -- a worker has collected the source
  abbrev pub HasCollected : List Goroutine → ActiveSourceForCollection × List Goroutine → Type 0
  HasCollected ws q =
      (count_where p (held ws)
        ≡ (if p q.0 then suc (count_where p (held q.1)) else count_where p (held q.1)))
      × (length (held ws) ≡ suc (length (held q.1)))
      × (length q.1 ≡ length ws)

  pub collect_one-HasCollected :
      (n : ℕ) (ws : List Goroutine) (q : ActiveSourceForCollection × List Goroutine)
      → collect_one n ws ≡ some q
      → HasCollected ws q
  unfolding collect_one held count_where
  collect_one-HasCollected n [] q h = absurd (ground arith)
  collect_one-HasCollected zero (Goroutine.idle ∷ ws) q h = absurd (ground arith)
  collect_one-HasCollected zero (Goroutine.holds x ∷ ws) q h =
      subst (HasCollected (Goroutine.holds x ∷ ws)) (some-injective (x, Goroutine.idle ∷ ws) q h)
        (refl, refl, refl)
  collect_one-HasCollected zero (Goroutine.gone ∷ ws) q h = absurd (ground arith)
  collect_one-HasCollected (suc n) (v ∷ ws) q h = elim (Option-cases (collect_one n ws)) [
    | inl missing ↦ absurd (ground (arith, h, missing))
    | inr (r, there) ↦
        let (counts, helds, lengths) = collect_one-HasCollected n ws r there in
        let found : some (r.0, v ∷ r.1) ≡ some q = ground (arith, h, there) in
        subst (HasCollected (v ∷ ws)) (some-injective (r.0, v ∷ r.1) q found)
          (elim v as (λ u. HasCollected (u ∷ ws) (r.0, u ∷ r.1)) [
            | Goroutine.idle ↦ (counts, helds, ground (arith, lengths))
            | Goroutine.holds x ↦
                (ground (arith, counts), ground (arith, helds), ground (arith, lengths))
            | Goroutine.gone ↦ (counts, helds, ground (arith, lengths))
          ])
  ]

-- a worker that leaves holds nothing
abbrev pub HasLeft : List Goroutine → List Goroutine → Type 0
HasLeft ws us = (held us ≡ held ws) × (length us ≡ length ws)

pub leave-HasLeft : (n : ℕ) (ws us : List Goroutine) → leave n ws ≡ some us → HasLeft ws us
unfolding leave held
leave-HasLeft n [] us h = absurd (ground arith)
leave-HasLeft zero (Goroutine.idle ∷ ws) us h =
    subst (HasLeft (Goroutine.idle ∷ ws)) (some-injective (Goroutine.gone ∷ ws) us h) (refl, refl)
leave-HasLeft zero (Goroutine.holds x ∷ ws) us h = absurd (ground arith)
leave-HasLeft zero (Goroutine.gone ∷ ws) us h = absurd (ground arith)
leave-HasLeft (suc n) (v ∷ ws) us h = elim (Option-cases (leave n ws)) [
  | inl missing ↦ absurd (ground (arith, h, missing))
  | inr (vs, there) ↦
      let (same, lengths) = leave-HasLeft n ws vs there in
      let found : some (v ∷ vs) ≡ some us = ground (arith, h, there) in
      subst (HasLeft (v ∷ ws)) (some-injective (v ∷ vs) us found)
        (elim v as (λ u. HasLeft (u ∷ ws) (u ∷ vs)) [
          | Goroutine.idle ↦ (same, ground (arith, lengths))
          | Goroutine.holds x ↦
              (ap (λ (xs : List ActiveSourceForCollection). x ∷ xs) same, ground (arith, lengths))
          | Goroutine.gone ↦ (same, ground (arith, lengths))
        ])
]

pub all_gone-held : (ws : List Goroutine) → all_gone ws ≡ true → held ws ≡ []
unfolding all_gone held
all_gone-held [] h = refl
all_gone-held (Goroutine.idle ∷ ws) h = absurd (ground arith)
all_gone-held (Goroutine.holds x ∷ ws) h = absurd (ground arith)
all_gone-held (Goroutine.gone ∷ ws) h = all_gone-held ws h

pub start_workers_lem : (n : ℕ) → (length (start_workers n) ≡ n) × (held (start_workers n) ≡ [])
unfolding start_workers held
start_workers_lem zero = (refl, refl)
start_workers_lem (suc n) = (ground (arith, start_workers_lem n), (start_workers_lem n).1)

pub held-length : (ws : List Goroutine) → length (held ws) ≤ length ws
unfolding held
held-length [] = omega arith
held-length (Goroutine.idle ∷ ws) = omega (arith, held-length ws)
held-length (Goroutine.holds x ∷ ws) = omega (arith, held-length ws)
held-length (Goroutine.gone ∷ ws) = omega (arith, held-length ws)
