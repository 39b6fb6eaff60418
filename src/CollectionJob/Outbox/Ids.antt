-- ===== src/CollectionJob/Outbox/Ids.antt =====
-- The ids of the outbox are different and below the serial of the table, so that a statement on
-- the ids of some rows changes those rows alone.
use contentflow.Prelude.{
  ◌==◌, Bool-cases, first_where, update_where, All, first_where-append, first_where-update_none,
  All_of, All-mono, ℕ, suc, ◌<◌, ◌≡◌, refl, sym, inl, inr, Bool, true, none, some, List, [], ◌∷◌,
  ◌++◌, arith,
}
use mathlib.Core.Path.{subst}
use contentflow.CollectionJob.Env.{OutboxEventModel}
use contentflow.CollectionJob.Outbox.Row.{has_id, id_in, ids}

-- every id is below `n`, and no two rows share one
abbrev pub IsNumbered : ℕ → List OutboxEventModel → Type 0
IsNumbered n [] = Unit {0}
IsNumbered n (m ∷ ms) = (m.id < n) × (first_where (has_id m.id) ms ≡ none) × IsNumbered n ms

pub IsNumbered-append :
    (n : ℕ) (ms : List OutboxEventModel) (m : OutboxEventModel)
    → IsNumbered n ms
    → m.id ≡ n
    → IsNumbered (suc n) (ms ++ m ∷ [])
unfolding first_where
IsNumbered-append n [] m h e = (omega arith, refl, tt)
IsNumbered-append n (x ∷ xs) m h e =
    ground (arith, IsNumbered-append n xs m h.2 e, first_where-append (has_id x.id) xs (m ∷ []))

pub IsNumbered-update :
    (n : ℕ) (p : OutboxEventModel → Bool) (u : OutboxEventModel → OutboxEventModel)
    (ms : List OutboxEventModel)
    → ((m : OutboxEventModel) → (u m).id ≡ m.id)
    → IsNumbered n ms
    → IsNumbered n (update_where p u ms)
unfolding update_where
IsNumbered-update n p u [] keep h = tt
IsNumbered-update n p u (x ∷ xs) keep h =
    let rest = IsNumbered-update n p u xs keep h.2 in
    let new : first_where (has_id x.id) (update_where p u xs) ≡ none =
      first_where-update_none (has_id x.id) p u xs (All_of (λ m hit e. ground (arith, keep m)) xs)
        h.1 in
    elim (Bool-cases (p x)) [
      | inl hit ↦ rw (hit, keep x) (h.0, new, rest)
      | inr miss ↦ rw miss (h.0, new, rest)
    ]

-- Each row is the one that is found under its id.
pub found_by_id :
    (n : ℕ) (ms : List OutboxEventModel)
    → IsNumbered n ms
    → All (λ m. first_where (has_id m.id) ms ≡ some m) ms
unfolding first_where
found_by_id n [] h = tt
found_by_id n (x ∷ xs) h = (
  ground arith,
  All-mono {P = λ m. first_where (has_id m.id) xs ≡ some m}
      (λ m f. elim (Bool-cases (x.id == m.id)) [
        | inl same ↦ absurd (clash m f (ground arith))
        | inr ne ↦ rw ne f
      ])
      xs (found_by_id n xs h.2),
)
  where
    clash : (m : OutboxEventModel) → first_where (has_id m.id) xs ≡ some m → m.id ≡ x.id → ⊥
    clash m f e = cc (rw e at f, h.1)

pub same_row :
    (ms : List OutboxEventModel) (m x : OutboxEventModel)
    → first_where (has_id m.id) ms ≡ some m
    → first_where (has_id x.id) ms ≡ some x
    → m.id ≡ x.id
    → m ≡ x
same_row ms m x f g e = let f' = rw e at f in cc (f', g)

-- A row whose id is listed among the ids of rows that satisfy `P` satisfies `P` itself.
pub id_in-found :
    (P : OutboxEventModel → Type 0) (ms chosen : List OutboxEventModel) (m : OutboxEventModel)
    → first_where (has_id m.id) ms ≡ some m
    → All (λ x. (first_where (has_id x.id) ms ≡ some x) × P x) chosen
    → id_in (ids chosen) m ≡ true
    → P m
unfolding id_in
id_in-found P ms [] m f h listed = absurd (ground arith)
id_in-found P ms (x ∷ xs) m f h listed = elim (Bool-cases (m.id == x.id)) [
  | inl same ↦ subst P (sym (same_row ms m x f h.0.0 (ground arith))) h.0.1
  | inr ne ↦ id_in-found P ms xs m f h.1 (ground arith)
]
