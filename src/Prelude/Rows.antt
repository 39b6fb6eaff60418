-- ===== src/Prelude/Rows.antt =====
-- What the statements of the program do to a table: a list of rows, in the order of their ids.
use Prim.Native.Nat.{ℕ, zero, suc}
use mathlib.Core.Path.{◌≡◌, refl, subst}
use mathlib.Core.Logic.{inl, inr}
use mathlib.Core.Bool.{Bool, true, false}
use mathlib.Core.Option.{Option, none, some, some-injective}
use mathlib.Core.List.{List, [], ◌∷◌, ◌++◌}
use native.Mathlib.Omega.{arith}
use contentflow.Prelude.Tests.{if◌then◌else◌, Bool-cases}

module _ {A : Type 0} where
  abbrev pub length : List A → ℕ
  length [] = 0
  length (x ∷ xs) = suc (length xs)

  abbrev pub take : ℕ → List A → List A
  take zero xs = []
  take (suc n) [] = []
  take (suc n) (x ∷ xs) = x ∷ take n xs

  abbrev pub drop : ℕ → List A → List A
  drop zero xs = xs
  drop (suc n) [] = []
  drop (suc n) (x ∷ xs) = drop n xs

  -- `SELECT ... WHERE p`
  unfoldable pub select_where : (A → Bool) → List A → List A
  select_where p [] = []
  select_where p (x ∷ xs) = if p x then x ∷ select_where p xs else select_where p xs

  -- `SELECT ... WHERE p ORDER BY id LIMIT 1`
  unfoldable pub first_where : (A → Bool) → List A → Option A
  first_where p [] = none
  first_where p (x ∷ xs) = if p x then some x else first_where p xs

  -- `SELECT COUNT(*) ... WHERE p`, and the number of rows that an update affects
  unfoldable pub count_where : (A → Bool) → List A → ℕ
  count_where p [] = 0
  count_where p (x ∷ xs) = if p x then suc (count_where p xs) else count_where p xs

  -- `UPDATE ... SET u WHERE p`
  unfoldable pub update_where : (A → Bool) → (A → A) → List A → List A
  update_where p u [] = []
  update_where p u (x ∷ xs) = (if p x then u x else x) ∷ update_where p u xs

  -- A stable sort: `ORDER BY`, where `before x y` says that `x` may stand before `y`.
  unfoldable pub insert_by : (A → A → Bool) → A → List A → List A
  insert_by before x [] = x ∷ []
  insert_by before x (y ∷ ys) = if before x y then x ∷ y ∷ ys else y ∷ insert_by before x ys

  unfoldable pub order_by : (A → A → Bool) → List A → List A
  unfolding insert_by
  order_by before [] = []
  order_by before (x ∷ xs) = insert_by before x (order_by before xs)

module _ {A : Type 0} where
  abbrev pub All : (A → Type 0) → List A → Type 0
  All P [] = Unit {0}
  All P (x ∷ xs) = P x × All P xs

module _ {A : Type 0} where
  -- A statement changes the rows that its condition names, and only those.
  pub first_where-update_where :
      (q p : A → Bool) (u : A → A) (xs : List A)
      → ((x : A) → q (u x) ≡ q x)
      → first_where q (update_where p u xs)
        ≡ elim (first_where q xs) [ none ↦ none | some x ↦ some (if p x then u x else x) ]
  unfolding first_where update_where
  first_where-update_where q p u [] keep = refl
  first_where-update_where q p u (x ∷ xs) keep =
      ground (arith, keep x, first_where-update_where q p u xs keep)

  pub first_where-none :
      (p : A → Bool) (xs : List A) → count_where p xs ≡ 0 → first_where p xs ≡ none
  unfolding first_where count_where
  first_where-none p [] h = refl
  first_where-none p (x ∷ xs) h = ground (arith, first_where-none p xs)

  pub update_where-none :
      (p : A → Bool) (u : A → A) (xs : List A) → count_where p xs ≡ 0 → update_where p u xs ≡ xs
  unfolding update_where count_where
  update_where-none p u [] h = refl
  update_where-none p u (x ∷ xs) h = ground (arith, update_where-none p u xs)

  pub All-update_where :
      (P : A → Type 0) (p : A → Bool) (u : A → A) (xs : List A)
      → ((x : A) → P x → p x ≡ true → P (u x))
      → All P xs
      → All P (update_where p u xs)
  unfolding update_where
  All-update_where P p u [] keep h = tt
  All-update_where P p u (x ∷ xs) keep h = elim (Bool-cases (p x)) [
    | inl hit ↦ rw hit (keep x h.0 hit, All-update_where P p u xs keep h.1)
    | inr miss ↦ rw miss (h.0, All-update_where P p u xs keep h.1)
  ]

  pub All-append : (P : A → Type 0) (xs ys : List A) → All P xs → All P ys → All P (xs ++ ys)
  All-append P [] ys hx hy = hy
  All-append P (x ∷ xs) ys hx hy = (hx.0, All-append P xs ys hx.1 hy)

  -- What a search finds satisfies its condition.
  pub first_where_hit :
      (p : A → Bool) (xs : List A) (x : A) → first_where p xs ≡ some x → p x ≡ true
  unfolding first_where
  first_where_hit p [] x h = ground arith
  first_where_hit p (y ∷ ys) x h = ground (arith, first_where_hit p ys x)

  -- What a search finds satisfies what all the rows satisfy.
  pub All-first_where :
      (P : A → Type 0) (p : A → Bool) (xs : List A) (x : A)
      → All P xs
      → first_where p xs ≡ some x
      → P x
  unfolding first_where
  All-first_where P p [] x h found = absurd (ground arith)
  All-first_where P p (y ∷ ys) x h found = elim (Bool-cases (p y)) [
    | inl hit ↦ let same : some y ≡ some x = ground arith in subst P (some-injective y x same) h.0
    | inr miss ↦ All-first_where P p ys x h.1 (ground arith)
  ]

  pub first_where-append :
      (p : A → Bool) (xs ys : List A)
      → first_where p (xs ++ ys)
        ≡ elim (first_where p xs) [ none ↦ first_where p ys | some x ↦ some x ]
  unfolding first_where
  first_where-append p [] ys = refl
  first_where-append p (x ∷ xs) ys = ground (arith, first_where-append p xs ys)

  pub first_where_single : (p : A → Bool) (x : A) → p x ≡ true → first_where p (x ∷ []) ≡ some x
  unfolding first_where
  first_where_single p x h = rw h

  pub select_where-append :
      (q : A → Bool) (xs : List A) (y : A)
      → select_where q (xs ++ y ∷ [])
        ≡ (if q y then select_where q xs ++ y ∷ [] else select_where q xs)
  unfolding select_where
  select_where-append q [] y = ground arith
  select_where-append q (x ∷ xs) y = ground (arith, select_where-append q xs y)

  -- A statement on rows that a query does not select leaves the answer of the query as it was.
  pub select_where-foreign :
      (q p : A → Bool) (u : A → A) (xs : List A)
      → ((x : A) → q (u x) ≡ q x)
      → ((x : A) → p x ≡ true → q x ≡ false)
      → select_where q (update_where p u xs) ≡ select_where q xs
  unfolding select_where update_where
  select_where-foreign q p u [] keep apart = refl
  select_where-foreign q p u (x ∷ xs) keep apart =
      ground (arith, keep x, apart x, select_where-foreign q p u xs keep apart)

  -- If no row satisfies the weaker condition, none satisfies the stronger one.
  pub count_where-none :
      (p q : A → Bool) (xs : List A)
      → ((x : A) → p x ≡ true → q x ≡ true)
      → first_where q xs ≡ none
      → count_where p xs ≡ 0
  unfolding count_where first_where
  count_where-none p q [] sub h = refl
  count_where-none p q (x ∷ xs) sub h = ground (arith, sub x, count_where-none p q xs sub)

  -- An update that lets no row of the table newly satisfy `q` keeps `q` unsatisfied.
  pub first_where-update_none :
      (q p : A → Bool) (u : A → A) (xs : List A)
      → All (λ x. p x ≡ true → q (u x) ≡ true → q x ≡ true) xs
      → first_where q xs ≡ none
      → first_where q (update_where p u xs) ≡ none
  unfolding first_where update_where
  first_where-update_none q p u [] keep h = refl
  first_where-update_none q p u (x ∷ xs) keep h =
      ground (arith, keep.0, first_where-update_none q p u xs keep.1)
