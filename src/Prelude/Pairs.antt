-- ===== src/Prelude/Pairs.antt =====
-- Statements about every two rows of a table, and how the statements of SQL keep them.
use mathlib.Core.Path.{◌≡◌}
use mathlib.Core.Bool.{Bool, false}
use mathlib.Core.Option.{none}
use mathlib.Core.List.{List, [], ◌∷◌, ◌++◌}
use native.Mathlib.Omega.{arith}
use contentflow.Prelude.Tests.{if◌then◌else◌}
use contentflow.Prelude.Every.{All-zip}
use contentflow.Prelude.Rows.{All, All-append, first_where, update_where}

module _ {A : Type 0} where
  -- Every row stands in the relation to every later row.
  abbrev pub Pairwise : (A → A → Type 0) → List A → Type 0
  Pairwise R [] = Unit {0}
  Pairwise R (x ∷ xs) = All (R x) xs × Pairwise R xs

  pub Pairwise-append :
      (R : A → A → Type 0) (xs : List A) (y : A)
      → Pairwise R xs
      → All (λ x. R x y) xs
      → Pairwise R (xs ++ y ∷ [])
  Pairwise-append R [] y h new = (tt, tt)
  Pairwise-append R (x ∷ xs) y h new =
      (All-append (R x) xs (y ∷ []) h.0 (new.0, tt), Pairwise-append R xs y h.1 new.1)

  -- the rows of an update, one by one
  pub All-updated :
      (P Q : A → Type 0) (p : A → Bool) (u : A → A) (xs : List A)
      → ((x : A) → P x → Q (if p x then u x else x))
      → All P xs
      → All Q (update_where p u xs)
  unfolding update_where
  All-updated P Q p u [] keep h = tt
  All-updated P Q p u (x ∷ xs) keep h = (keep x h.0, All-updated P Q p u xs keep h.1)

  -- An update keeps a relation that it keeps between any two rows of which `P` holds.
  pub Pairwise-update_where :
      (R : A → A → Type 0) (P : A → Type 0) (p : A → Bool) (u : A → A) (xs : List A)
      → ((x y : A) → P x → P y → R x y → R (if p x then u x else x) (if p y then u y else y))
      → All P xs
      → Pairwise R xs
      → Pairwise R (update_where p u xs)
  unfolding update_where
  Pairwise-update_where R P p u [] keep h apart = tt
  Pairwise-update_where R P p u (x ∷ xs) keep h apart = (
    All-updated (λ y. P y × R x y) (R (if p x then u x else x)) p u xs
        (λ y both. keep x y h.0 both.0 both.1) (All-zip P (R x) xs h.1 apart.0),
    Pairwise-update_where R P p u xs keep h.1 apart.1,
  )

  pub All-first_none :
      (q : A → Bool) (xs : List A) → first_where q xs ≡ none → All (λ x. q x ≡ false) xs
  unfolding first_where
  All-first_none q [] h = tt
  All-first_none q (x ∷ xs) h = (ground arith, All-first_none q xs (ground arith))
