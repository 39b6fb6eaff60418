-- ===== src/RateLimit/Tests.antt =====
-- A small Redis, and the limiter at work in it.
use contentflow.Prelude.{
  if◌then◌else◌, pos, negsuc, suc, ◌+◌, ◌-◌, String, ◌≡◌, refl, true, Option, none, some, [], ◌∷◌,
  arith, str_eq, eq_iff,
}
use contentflow.RateLimit.{Redis, Entry, live, count_of, deadline_of, IsRedis, allow}
use contentflow.RateLimit.Window.{served, is_served, served-bounded, served-again}

abbrev Memory : Type 0
Memory = String → Option Entry

abbrev put : String → Option Entry → Memory → Memory
put k e s k' = if str_eq k' k then e else s k'

abbrev memory : Redis Memory
memory = record {
  kept = λ s k. s k;
  incr = λ now k s. (
    suc (count_of (live now (s k))),
    put k
        (some (record {
          count = suc (count_of (live now (s k)));
          deadline = deadline_of (live now (s k));
        }))
        s,
  );
  pexpire = λ now k w s.
      put k
        (elim (live now (s k)) [
          | none ↦ none
          | some e ↦ some (record e { deadline = some (now + w) })
        ])
        s;
  pttl = λ now k s. elim (live now (s k)) [
    | none ↦ negsuc 1
    | some e ↦ elim (e.deadline) [ none ↦ negsuc 0 | some d ↦ pos (d - now) ]
  ];
}

memory-IsRedis : IsRedis memory
memory-IsRedis = record {
  incr_count = λ now k s. refl;
  incr_kept = λ now k s. ground (arith, (eq_iff k k).1 refl);
  pexpire_kept = λ now k w s e some_time lives. ground (arith, (eq_iff k k).1 refl, lives);
  pttl_time = λ now k s e d lives ends. ground (arith, lives, ends);
}

abbrev empty : Memory
empty k = none

served-bounded_example :
    (served memory "login:ip:10.0.0.1" 2 60000000000 (100 ∷ 101 ∷ 200 ∷ []) empty).0 ≡ 2
served-bounded_example =
    served-bounded memory memory-IsRedis "login:ip:10.0.0.1" 2 60000000000 100 (101 ∷ 200 ∷ [])
      empty (omega arith) refl (omega arith, (omega arith, tt))

served-again_example :
    is_served
      (allow memory none 60100 "login:ip:10.0.0.1" 2 60000000000
        (served memory "login:ip:10.0.0.1" 2 60000000000 (100 ∷ 101 ∷ 200 ∷ []) empty).1).0
    ≡ true
served-again_example =
    served-again memory memory-IsRedis "login:ip:10.0.0.1" 2 60000000000 100 60100 (101 ∷ 200 ∷ [])
      empty (omega arith) (omega arith) refl (omega arith, (omega arith, tt)) (omega arith)
