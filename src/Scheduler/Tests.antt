-- ===== src/Scheduler/Tests.antt =====
-- Two workers and three sources.
use contentflow.Prelude.{
  ◌==◌, pos, length, count_where, ℕ, ◌≤◌, ◌≡◌, refl, Bool, none, List, [], ◌∷◌, arith,
}
use contentflow.Sources.Repository.{ActiveSourceForCollection}
use contentflow.Scheduler.{
  Scheduler, with_concurrency, new_scheduler, Turn, happen, round, run_once, receive, collect_one,
  leave, all_gone, start_workers,
}
use contentflow.Scheduler.Goroutines.{held}
use contentflow.Scheduler.Rounds.{run_once-collected, run_once-bounded}

abbrev source : ℕ → ActiveSourceForCollection
source id = record { id = id; user_id = 5; kind = "rss"; last_fetched_at = none }

abbrev sources : List ActiveSourceForCollection
sources = source 1 ∷ source 2 ∷ source 3 ∷ []

abbrev pair : Scheduler
pair = with_concurrency (pos 2) new_scheduler

-- the third source waits until a worker is free, and the second returns before the first
abbrev turns : List Turn
turns =
    Turn.receives 0
    ∷ Turn.receives 1
    ∷ Turn.receives 1
    ∷ Turn.returns 1
    ∷ Turn.receives 1
    ∷ Turn.closes
    ∷ Turn.returns 0
    ∷ Turn.leaves 0
    ∷ Turn.waits
    ∷ Turn.returns 1
    ∷ Turn.leaves 1
    ∷ Turn.waits
    ∷ []

abbrev is_second : ActiveSourceForCollection → Bool
is_second s = s.id == 2

run_once-collected_example : count_where is_second (run_once pair sources turns).collected ≡ 1
unfolding round happen count_where start_workers receive collect_one leave all_gone
run_once-collected_example = run_once-collected pair sources turns is_second refl

run_once-bounded_example :
    length (held (run_once pair sources (Turn.receives 0 ∷ Turn.receives 1 ∷ [])).workers) ≤ 2
run_once-bounded_example =
    run_once-bounded pair 2 sources (Turn.receives 0 ∷ Turn.receives 1 ∷ []) refl (omega arith)

third_waits :
    (run_once pair sources (Turn.receives 0 ∷ Turn.receives 1 ∷ Turn.receives 1 ∷ [])).waiting
    ≡ source 3 ∷ []
unfolding round happen start_workers receive
third_waits = refl
