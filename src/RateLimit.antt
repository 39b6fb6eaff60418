-- ===== src/RateLimit.antt =====
-- internal/ratelimit/limiter.go: the Redis script of the limiter, its answer and the middleware.
use contentflow.Prelude.{
  ltb, ◌==◌, if◌then◌else◌, ℤ, pos, negsuc, pos_part, ltb_ℤ, leb_ℤ, wrap64, Err, Result, Proc, ok,
  err, ℕ, suc, ◌+◌, ◌-◌, ◌*◌, ◌/◌, ◌^◌, ◌<◌, String, ◌≡◌, Bool, ◌||◌, not, Option, none, some,
  str_eq,
}
pub mod Window
mod Tests

-- What Redis keeps for a key, and until when, in milliseconds.
pub record Entry : Type 0 where
  pub count : ℕ
  pub deadline : Option ℕ

-- an entry that is over counts as none
abbrev pub live : ℕ → Option Entry → Option Entry
live now none = none
live now (some e) = elim (e.deadline) [
  | none ↦ some e
  | some d ↦ if ltb now d then some e else none
]

abbrev pub count_of : Option Entry → ℕ
count_of none = 0
count_of (some e) = e.count

abbrev pub deadline_of : Option Entry → Option ℕ
deadline_of none = none
deadline_of (some e) = e.deadline

-- The commands of Redis that the script calls, each at a time, and what Redis keeps.
pub record Redis (S : Type 0) : Type 0 where
  pub kept : S → String → Option Entry
  pub incr : ℕ → String → S → ℕ × S
  pub pexpire : ℕ → String → ℕ → S → S
  pub pttl : ℕ → String → S → ℤ

-- What the documentation of Redis says of the commands.
pub record IsRedis {S : Type 0} (r : Redis S) : Type 0 where
  pub incr_count :
      (now : ℕ) (k : String) (s : S) → (r.incr now k s).0 ≡ suc (count_of (live now (r.kept s k)))
  pub incr_kept :
      (now : ℕ) (k : String) (s : S)
      → r.kept (r.incr now k s).1 k
        ≡ some (record {
          count = suc (count_of (live now (r.kept s k)));
          deadline = deadline_of (live now (r.kept s k));
        })
  pub pexpire_kept :
      (now : ℕ) (k : String) (w : ℕ) (s : S) (e : Entry)
      → 0 < w
      → live now (r.kept s k) ≡ some e
      → r.kept (r.pexpire now k w s) k ≡ some (record e { deadline = some (now + w) })
  pub pttl_time :
      (now : ℕ) (k : String) (s : S) (e : Entry) (d : ℕ)
      → live now (r.kept s k) ≡ some e
      → e.deadline ≡ some d
      → r.pttl now k s ≡ pos (d - now)

-- what the script returns
pub record Reply : Type 0 where
  pub allowed : Bool
  pub count : ℕ
  pub ttl : ℤ

-- `Result`
pub record RateResult : Type 0 where
  pub allowed : Bool
  pub limit : ℕ
  pub remaining : ℕ
  pub retry_after : ℤ
  pub reset_after : ℤ

abbrev milliseconds : ℤ → ℤ
milliseconds (pos n) = pos (n * 10 ^ 6)
milliseconds (negsuc n) = negsuc (suc n * 10 ^ 6 - 1)

module _ {S : Type 0} (r : Redis S) where
  -- the second branch of the script: a key without an end gets one
  abbrev ended : ℕ → String → ℕ → ℤ → S → ℤ × S
  ended now key window ttl s =
      if ltb_ℤ ttl (pos 0) then (pos window, r.pexpire now key window s) else (ttl, s)

  -- `redisRateLimitScript`, at a time in milliseconds
  unfoldable pub script : ℕ → String → ℕ → ℕ → S → Reply × S
  script now key limit window s =
      let current = (r.incr now key s).0 in
      let s1 = (r.incr now key s).1 in
      let s2 = if current == 1 then r.pexpire now key window s1 else s1 in
      let done = ended now key window (r.pttl now key s2) s2 in
      (record { allowed = not (ltb limit current); count = current; ttl = done.0 }, done.1)

  -- `RedisLimiter.Allow`, for a limit and a window that are positive, as the middleware asks for;
  -- the script may fail
  unfoldable pub allow : Option Err → ℕ → String → ℕ → ℕ → Proc S RateResult
  allow fault now key limit window s = elim fault [
    | some e ↦ (err (Err.wrap "run rate limit script" e), s)
    | none ↦
        let (reply, s') = script now key limit (window / 10 ^ 6) s in
        (
          ok (record {
            allowed = reply.allowed;
            limit = limit;
            remaining = limit - reply.count;
            retry_after = if reply.allowed then pos 0 else wrap64 (milliseconds reply.ttl);
            reset_after = wrap64 (milliseconds reply.ttl);
          }),
          s',
        )
  ]

-- `Config`, where `key` is what the key function answers to the request
pub record Config : Type 0 where
  pub limit : ℤ
  pub window : ℤ
  pub key : Option String

-- what becomes of a request: it goes on, or is answered with the status 429 or 500
pub data Outcome : Type 0 where
  goes_on too_many_requests fails : Outcome

abbrev outcome_of : Result RateResult → Outcome
outcome_of (err e) = Outcome.fails
outcome_of (ok result) = if result.allowed then Outcome.goes_on else Outcome.too_many_requests

-- `Middleware` with a limiter; the headers of the answer are left out
unfoldable pub middleware : {S : Type 0} → Redis S → Config → Option Err → ℕ → S → Outcome × S
middleware r cfg fault now s =
    if leb_ℤ cfg.limit (pos 0) || leb_ℤ cfg.window (pos 0)
    then (Outcome.goes_on, s)
    else elim (cfg.key) [
      | none ↦ (Outcome.goes_on, s)
      | some key ↦
          if str_eq key ""
          then (Outcome.goes_on, s)
          else let (result, s') =
              allow r fault now key (pos_part cfg.limit) (pos_part cfg.window) s in
            (outcome_of result, s')
    ]
