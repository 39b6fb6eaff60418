-- ===== src/Prelude/Procedure.antt =====
-- Procedures: code that changes a state and may return an error. What was changed before an error
-- stays changed, so the state comes back in both cases.

use Prim.Native.Nat.{ℕ}
use mathlib.Core.Option.{Option, none, some}
use Prim.Native.String.{String}
use mathlib.Core.Bool.{Bool, true, false}
use mathlib.Core.Path.{◌≡◌, refl}
use mathlib.Core.Logic.{◌⊎◌, inl, inr}
use contentflow.Prelude.Error.{Err}

pub data Result {ℓ} (A : Type ℓ) : Type ℓ where
  ok : A → Result A
  err : Err → Result A

abbrev pub Proc : Type 0 → Type 0 → Type 0
Proc S A = S → Result A × S

module _ {S A : Type 0} where
  abbrev pub pure : A → Proc S A
  pure a s = (ok a, s)

  abbrev pub raise : Err → Proc S A
  raise e s = (err e, s)

  abbrev pub lift : Result A → Proc S A
  lift r s = (r, s)

  abbrev pub gets : (S → A) → Proc S A
  gets f s = (ok (f s), s)

  -- `if err != nil { return fmt.Errorf("text: %w", err) }`
  abbrev pub wrapping : String → Proc S A → Proc S A
  wrapping text m s =
      let (r, s') = m s in elim r [ ok a ↦ (ok a, s') | err e ↦ (err (Err.wrap text e), s') ]

abbrev pub modify : {S : Type 0} → (S → S) → Proc S (Unit {0})
modify f s = (ok tt, f s)

-- One call that may fail: it takes effect (`next`, the number of calls counted) or returns the error
-- that `fault` has for its number.
abbrev pub calling : {S : Type 0} → (S → ℕ) → (S → S) → (ℕ → Option Err) → Proc S (Unit {0})
calling tick next fault w = elim (fault (tick w)) [
  | none ↦ (ok tt, next w)
  | some e ↦ (err e, next w)
]

-- `_ = call()`: the error is dropped.
abbrev pub ignoring : {S A : Type 0} → Proc S A → Proc S (Unit {0})
ignoring m s = let (r, s') = m s in (ok tt, s')

-- The caller looks at the error itself.
abbrev pub trying : {S A : Type 0} → Proc S A → Proc S (Result A)
trying m s = let (r, s') = m s in (ok r, s')

infixl 5 ◌>>=◌ ◌>>◌
abbrev pub ◌>>=◌ : {S A B : Type 0} → Proc S A → (A → Proc S B) → Proc S B
◌>>=◌ m f s = let (r, s') = m s in elim r [ ok a ↦ f a s' | err e ↦ (err e, s') ]

abbrev pub ◌>>◌ : {S B : Type 0} → Proc S (Unit {0}) → Proc S B → Proc S B
m >> k = m >>= λ _. k

-- A database transaction: on an error the data go back to what they were before.
abbrev pub transaction : {S A : Type 0} → (S → S → S) → Proc S A → Proc S A
transaction rollback m s =
    let (r, s') = m s in elim r [ ok a ↦ (ok a, s') | err e ↦ (err e, rollback s s') ]

-- Whether a call returned without an error.
abbrev pub is_ok : {A : Type 0} → Result A → Bool
is_ok (ok a) = true
is_ok (err e) = false

-- A result is a value or an error.
pub Result-cases :
    {A : Type 0} → (r : Result A) → ((x : A) × (r ≡ ok x)) ⊎ ((e : Err) × (r ≡ err e))
Result-cases (ok x) = inl (x, refl)
Result-cases (err e) = inr (e, refl)
