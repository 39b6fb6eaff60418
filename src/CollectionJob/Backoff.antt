-- ===== src/CollectionJob/Backoff.antt =====
-- The retry delays of worker.go and outbox.go, and `time.Time.Add`.
use contentflow.Prelude.{
  ℤ, pos, negsuc, ◌+ℤ◌, ◌≤ℤ◌, wrap64, ℕ, zero, suc, ◌+◌, ◌-◌, ◌*◌, ◌^◌, ◌≤◌, ◌<◌, ◌≡◌, refl, ap,
  ◌∙◌, arith,
}
use native.Mathlib.Nat.{pow-suc, pow-zero}

-- `for i := 1; i < attempt; i++ { backoff *= 2 }` in 64-bit arithmetic: `k` rounds
unfoldable pub doubled : ℤ → ℕ → ℤ
doubled backoff zero = backoff
doubled backoff (suc k) = doubled (wrap64 (backoff +ℤ backoff)) k

-- `retryBackoff`, which the worker and the dispatcher both have
unfoldable pub retry_backoff : ℤ → ℤ → ℤ
unfolding doubled
retry_backoff base (negsuc _) = base
retry_backoff base (pos zero) = base
retry_backoff base (pos (suc k)) = doubled base k

-- `t.Add(d)`; a time before Go's zero time counts as the zero time.
unfoldable pub add_duration : ℕ → ℤ → ℕ
add_duration t (pos n) = t + n
add_duration t (negsuc n) = t - suc n

wrap64_twice : (b : ℕ) → b + b < 2 ^ 63 → wrap64 (pos b +ℤ pos b) ≡ pos (b + b)
unfolding wrap64
wrap64_twice b h = ground arith

le-mul-pow : (b k : ℕ) → b ≤ b * 2 ^ k
le-mul-pow b zero = grind (arith, pow-zero 2)
le-mul-pow b (suc k) = grind (arith, pow-suc 2 k, le-mul-pow b k)

double-mul-pow : (b k : ℕ) → (b + b) * 2 ^ k ≡ b * 2 ^ suc k
double-mul-pow b k = grind (arith, pow-suc 2 k)

doubled_lem : (b k : ℕ) → b * 2 ^ k < 2 ^ 63 → doubled (pos b) k ≡ pos (b * 2 ^ k)
unfolding doubled
doubled_lem b zero h = ap pos (grind (arith, pow-zero 2))
doubled_lem b (suc k) h =
    let fits : (b + b) * 2 ^ k < 2 ^ 63 = rw double-mul-pow h in
    let small : b + b < 2 ^ 63 = omega (arith, le-mul-pow (b + b) k) in
    rw (wrap64_twice b small) ((doubled_lem (b + b) k fits) ∙ ap pos (double-mul-pow b k))

small_attempt : (base : ℕ) (a : ℤ) → a ≤ℤ pos 1 → retry_backoff (pos base) a ≡ pos base
unfolding retry_backoff doubled
small_attempt base (negsuc n) le = refl
small_attempt base (pos zero) le = refl
small_attempt base (pos (suc zero)) le = refl
small_attempt base (pos (suc (suc n))) le = absurd (omega arith)

-- As long as nothing overflows, the delay before attempt `k + 1` is the base delay doubled `k`
-- times, and the delay before the first attempt or an earlier one is the base delay.
pub retry_backoff_lem :
    (base k : ℕ)
    → base * 2 ^ k < 2 ^ 63
    → (retry_backoff (pos base) (pos (suc k)) ≡ pos (base * 2 ^ k))
      × ((a : ℤ) → a ≤ℤ pos 1 → retry_backoff (pos base) a ≡ pos base)
unfolding retry_backoff
retry_backoff_lem base k h = (doubled_lem base k h, λ a le. small_attempt base a le)
