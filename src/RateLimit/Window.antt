-- ===== src/RateLimit/Window.antt =====
-- How many calls a window lets through, and that the next window lets calls through again.
use contentflow.Prelude.{
  ltb, if◌then◌else◌, pos, Result, ok, err, length, All, ℕ, suc, ◌+◌, ◌-◌, ◌/◌, ◌^◌, ◌≤◌, ◌<◌, min,
  String, ◌≡◌, refl, Bool, true, false, not, none, some, List, [], ◌∷◌, arith,
}
use mathlib.Core.Path.{subst}
use contentflow.RateLimit.{Redis, live, IsRedis, script, Entry, RateResult, allow}

module _ {S : Type 0} (r : Redis S) (law : IsRedis r) (key : String) (limit window : ℕ) where
  -- the key has been counted `c` times and lives until `d`
  abbrev IsCounted : ℕ → ℕ → S → Type 0
  IsCounted c d s = r.kept s key ≡ some (record { count = c; deadline = some d })

  -- a call while the key lives
  script-counts :
      (now c d : ℕ) (s : S)
      → now < d
      → 0 < c
      → IsCounted c d s
      → ((script r now key limit window s).0.allowed ≡ not (ltb limit (suc c)))
        × IsCounted (suc c) d (script r now key limit window s).1
  unfolding script
  script-counts now c d s before counted_once counted =
      let old : Entry = record { count = c; deadline = some d } in
      let new : Entry = record { count = suc c; deadline = some d } in
      let s1 = (r.incr now key s).1 in
      let lives : live now (r.kept s key) ≡ some old = ground (arith, counted, before) in
      let current : (r.incr now key s).0 ≡ suc c =
        ground (arith, law.incr_count now key s, lives) in
      let stored : r.kept s1 key ≡ some new = ground (arith, law.incr_kept now key s, lives) in
      let time : r.pttl now key s1 ≡ pos (d - now) =
        law.pttl_time now key s1 new d (ground (arith, stored, before)) refl in
      (ground (arith, current), ground (arith, current, time, stored, counted_once))

  -- a call when the key is absent or over
  script-first :
      (now : ℕ) (s : S)
      → 0 < window
      → live now (r.kept s key) ≡ none
      → ((script r now key limit window s).0.allowed ≡ not (ltb limit 1))
        × IsCounted 1 (now + window) (script r now key limit window s).1
  unfolding script
  script-first now s some_time gone =
      let fresh : Entry = record { count = 1; deadline = none } in
      let new : Entry = record { count = 1; deadline = some (now + window) } in
      let s1 = (r.incr now key s).1 in
      let s2 = r.pexpire now key window s1 in
      let current : (r.incr now key s).0 ≡ 1 = ground (arith, law.incr_count now key s, gone) in
      let stored : r.kept s1 key ≡ some fresh = ground (arith, law.incr_kept now key s, gone) in
      let ends : r.kept s2 key ≡ some new =
        law.pexpire_kept now key window s1 fresh some_time (ground (arith, stored)) in
      let time : r.pttl now key s2 ≡ pos (now + window - now) =
        law.pttl_time now key s2 new (now + window) (ground (arith, ends, some_time)) refl in
      (ground (arith, current), ground (arith, current, time, ends))

-- whether the middleware lets the call through
abbrev pub is_served : Result RateResult → Bool
is_served (ok result) = result.allowed
is_served (err e) = false

module _ {S : Type 0} (r : Redis S) (key : String) (limit window : ℕ) where
  -- the number of calls at the given times that are let through, and what Redis keeps after them
  unfoldable pub served : List ℕ → S → ℕ × S
  served [] s = (0, s)
  served (now ∷ times) s =
      let (result, s') = allow r none now key limit window s in
      let (n, s'') = served times s' in (if is_served result then suc n else n, s'')

module _ {S : Type 0} (r : Redis S) (law : IsRedis r) (key : String) (limit window : ℕ) where
  -- the rest of a window
  served_rest :
      (times : List ℕ) (c d : ℕ) (s : S)
      → All (λ now. now < d) times
      → 0 < c
      → IsCounted r law key limit window c d s
      → ((served r key limit window times s).0 ≡ min (limit - c) (length times))
        × IsCounted r law key limit window
            (c + length times)
            d
            (served r key limit window times s).1
  unfolding served allow
  served_rest [] c d s inside counted_once counted = (omega arith, ground (arith, counted))
  served_rest (now ∷ times) c d s inside counted_once counted =
      let w = window / 10 ^ 6 in
      let (allowed, next) =
        script-counts r law key limit w now c d s inside.0 counted_once counted in
      let (number, last) =
        served_rest times (suc c) d (script r now key limit w s).1 inside.1 (omega arith) next in
      let moved : suc c + length times ≡ c + suc (length times) = omega arith in
      (
        ground (arith, allowed, number),
        subst
            (λ n.
              IsCounted r law key limit window n d
                (served r key limit window times (script r now key limit w s).1).1)
            moved last,
      )

  -- the calls of a window, from the first one on
  served-window :
      (now : ℕ) (times : List ℕ) (s : S)
      → 0 < window / 10 ^ 6
      → live now (r.kept s key) ≡ none
      → All (λ t. t < now + window / 10 ^ 6) times
      → ((served r key limit window (now ∷ times) s).0 ≡ min limit (suc (length times)))
        × IsCounted r law key limit window
            (1 + length times)
            (now + window / 10 ^ 6)
            (served r key limit window (now ∷ times) s).1
  unfolding served allow
  served-window now times s some_time gone inside =
      let w = window / 10 ^ 6 in
      let (allowed, next) = script-first r law key limit w now s some_time gone in
      let (number, last) =
        served_rest times 1 (now + w) (script r now key limit w s).1 inside (omega arith) next in
      (ground (arith, allowed, number), last)

  -- Of the calls of one key in a window, which starts with a call when Redis keeps no live count for
  -- the key, exactly the first are let through, up to the limit. It is assumed that Redis does what
  -- its documentation says and does not fail, and that the window has a millisecond at least.
  pub served-bounded :
      (now : ℕ) (times : List ℕ) (s : S)
      → 0 < window / 10 ^ 6
      → live now (r.kept s key) ≡ none
      → All (λ t. t < now + window / 10 ^ 6) times
      → (served r key limit window (now ∷ times) s).0 ≡ min limit (suc (length times))
  served-bounded now times s some_time gone inside =
      (served-window now times s some_time gone inside).0

  -- However many calls there were in a window, a call after its end is let through, under the same
  -- assumptions and for a limit of one at least.
  pub served-again :
      (now later : ℕ) (times : List ℕ) (s : S)
      → 0 < window / 10 ^ 6
      → 0 < limit
      → live now (r.kept s key) ≡ none
      → All (λ t. t < now + window / 10 ^ 6) times
      → now + window / 10 ^ 6 ≤ later
      → is_served
          (allow r none later key limit window (served r key limit window (now ∷ times) s).1).0
        ≡ true
  unfolding allow
  served-again now later times s some_time some_calls gone inside over =
      let w = window / 10 ^ 6 in
      let s' = (served r key limit window (now ∷ times) s).1 in
      let (number, last) = served-window now times s some_time gone inside in
      let free : live later (r.kept s' key) ≡ none = ground (arith, last, over) in
      let (allowed, next) = script-first r law key limit w later s' some_time free in
      ground (arith, allowed, some_calls)
