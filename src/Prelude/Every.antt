-- ===== src/Prelude/Every.antt =====
-- Statements about every row of a table, and how the queries keep them.
use mathlib.Core.Path.{◌≡◌}
use mathlib.Core.Bool.{Bool, true}
use mathlib.Core.List.{List, [], ◌∷◌}
use Prim.Native.Nat.{ℕ, zero, suc}
use mathlib.Core.Logic.{inl, inr}
use contentflow.Prelude.Tests.{Bool-cases}
use contentflow.Prelude.Rows.{All, select_where, insert_by, order_by, take}

module _ {A : Type 0} where
  pub All_of : {P : A → Type 0} → ((x : A) → P x) → (xs : List A) → All P xs
  All_of h [] = tt
  All_of h (x ∷ xs) = (h x, All_of h xs)

  pub All-mono : {P Q : A → Type 0} → ((x : A) → P x → Q x) → (xs : List A) → All P xs → All Q xs
  All-mono f [] h = tt
  All-mono f (x ∷ xs) h = (f x h.0, All-mono f xs h.1)

  -- What is selected satisfies the condition too.
  pub All-select_where :
      (P : A → Type 0) (q : A → Bool) (xs : List A)
      → All P xs
      → All (λ x. P x × (q x ≡ true)) (select_where q xs)
  unfolding select_where
  All-select_where P q [] h = tt
  All-select_where P q (x ∷ xs) h = elim (Bool-cases (q x)) [
    | inl hit ↦ rw hit ((h.0, hit), All-select_where P q xs h.1)
    | inr miss ↦ rw miss (All-select_where P q xs h.1)
  ]

  All-insert_by :
      (P : A → Type 0) (before : A → A → Bool) (x : A) (xs : List A)
      → P x
      → All P xs
      → All P (insert_by before x xs)
  unfolding insert_by
  All-insert_by P before x [] px h = (px, tt)
  All-insert_by P before x (y ∷ ys) px h = elim (Bool-cases (before x y)) [
    | inl first ↦ rw first (px, h)
    | inr later ↦ rw later (h.0, All-insert_by P before x ys px h.1)
  ]

  pub All-order_by :
      (P : A → Type 0) (before : A → A → Bool) (xs : List A) → All P xs → All P (order_by before xs)
  unfolding order_by
  All-order_by P before [] h = tt
  All-order_by P before (x ∷ xs) h =
      All-insert_by P before x (order_by before xs) h.0 (All-order_by P before xs h.1)

  pub All-take : (P : A → Type 0) (n : ℕ) (xs : List A) → All P xs → All P (take n xs)
  All-take P zero xs h = tt
  All-take P (suc n) [] h = tt
  All-take P (suc n) (x ∷ xs) h = (h.0, All-take P n xs h.1)

  pub All-zip : (P Q : A → Type 0) (xs : List A) → All P xs → All Q xs → All (λ x. P x × Q x) xs
  All-zip P Q [] h k = tt
  All-zip P Q (x ∷ xs) h k = ((h.0, k.0), All-zip P Q xs h.1 k.1)
