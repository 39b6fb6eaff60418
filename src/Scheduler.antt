-- ===== src/Scheduler.antt =====
-- internal/module/scheduler/scheduler.go: one round of the scheduled collection, in which several
-- workers take the sources from one channel.
use contentflow.Prelude.{
  ltb, if◌then◌else◌, ℤ, pos, pos_part, ltb_ℤ, leb_ℤ, length, ℕ, zero, suc, Bool, true, false,
  Option, none, some, List, [], ◌∷◌,
}
use contentflow.Sources.Repository.{ActiveSourceForCollection}
pub mod Goroutines
pub mod Rounds
mod Tests

pub record Scheduler : Type 0 where
  pub batch_size : ℤ
  pub concurrency : ℤ

-- `WithBatchSize` and `WithConcurrency`
abbrev pub with_batch_size : ℤ → Scheduler → Scheduler
with_batch_size n s = if ltb_ℤ (pos 0) n then record s { batch_size = n } else s

abbrev pub with_concurrency : ℤ → Scheduler → Scheduler
with_concurrency n s = if ltb_ℤ (pos 0) n then record s { concurrency = n } else s

-- `New`, before its options
abbrev pub new_scheduler : Scheduler
new_scheduler = record { batch_size = pos 100; concurrency = pos 4 }

-- the number of workers that `RunOnce` starts
abbrev pub workers_for : Scheduler → List ActiveSourceForCollection → ℕ
workers_for s sources =
    let workers = if leb_ℤ s.concurrency (pos 0) then 1 else pos_part s.concurrency in
    if ltb (length sources) workers then length sources else workers

-- A goroutine of the round: it waits at the channel, it is in `collectOne`, or its loop has ended.
pub data Goroutine : Type 0 where
  idle : Goroutine
  holds : ActiveSourceForCollection → Goroutine
  gone : Goroutine

-- what `RunOnce` returns: nil, or the error of the context
pub data Ending : Type 0 where
  finished : Ending
  canceled : Ending

-- Where `RunOnce` is: in the loop that sends, in `wg.Wait` after `close(jobs)`, or done.
pub data Phase : Type 0 where
  sending : Phase
  closed : Ending → Phase
  returned : Ending → Phase

-- `waiting` are the sources that the loop has not sent, `collected` those for which `collectOne` has
-- returned.
pub record Round : Type 0 where
  pub phase : Phase
  pub waiting : List ActiveSourceForCollection
  pub workers : List Goroutine
  pub collected : List ActiveSourceForCollection

-- What happens next: a worker receives a source from the loop, the loop sees that the context is
-- done, the loop ends and the channel is closed, `collectOne` returns in a worker, a worker sees that
-- the channel is closed, or `wg.Wait` returns.
pub data Turn : Type 0 where
  receives : ℕ → Turn
  is_done : Turn
  closes : Turn
  returns : ℕ → Turn
  leaves : ℕ → Turn
  waits : Turn

-- `case jobs <- src` with the worker that receives; none when that worker is not waiting
unfoldable pub receive : ℕ → ActiveSourceForCollection → List Goroutine → Option (List Goroutine)
receive n src [] = none
receive zero src (Goroutine.idle ∷ ws) = some (Goroutine.holds src ∷ ws)
receive zero src (Goroutine.holds x ∷ ws) = none
receive zero src (Goroutine.gone ∷ ws) = none
receive (suc n) src (v ∷ ws) = elim (receive n src ws) [ none ↦ none | some us ↦ some (v ∷ us) ]

-- `collectOne` returns: the source, and the workers after it
unfoldable pub collect_one :
    ℕ → List Goroutine → Option (ActiveSourceForCollection × List Goroutine)
collect_one n [] = none
collect_one zero (Goroutine.idle ∷ ws) = none
collect_one zero (Goroutine.holds x ∷ ws) = some (x, Goroutine.idle ∷ ws)
collect_one zero (Goroutine.gone ∷ ws) = none
collect_one (suc n) (v ∷ ws) = elim (collect_one n ws) [
  | none ↦ none
  | some p ↦ some (p.0, v ∷ p.1)
]

-- `wg.Done` after `for src := range jobs` of a closed channel
unfoldable pub leave : ℕ → List Goroutine → Option (List Goroutine)
leave n [] = none
leave zero (Goroutine.idle ∷ ws) = some (Goroutine.gone ∷ ws)
leave zero (Goroutine.holds x ∷ ws) = none
leave zero (Goroutine.gone ∷ ws) = none
leave (suc n) (v ∷ ws) = elim (leave n ws) [ none ↦ none | some us ↦ some (v ∷ us) ]

-- what `wg.Wait` waits for
unfoldable pub all_gone : List Goroutine → Bool
all_gone [] = true
all_gone (Goroutine.idle ∷ ws) = false
all_gone (Goroutine.holds x ∷ ws) = false
all_gone (Goroutine.gone ∷ ws) = all_gone ws

unfoldable pub start_workers : ℕ → List Goroutine
start_workers zero = []
start_workers (suc n) = Goroutine.idle ∷ start_workers n

-- `RunOnce` before its loop
abbrev pub start : ℕ → List ActiveSourceForCollection → Round
start workers sources = record {
  phase = Phase.sending;
  waiting = sources;
  workers = start_workers workers;
  collected = [];
}

-- the loop of `RunOnce`: it sends a source, sees the end of the context, or ends with the sources
abbrev send : ℕ → Round → Round
send n r = elim r.waiting [
  | [] ↦ r
  | x ∷ xs ↦ elim (receive n x r.workers) [
    | none ↦ r
    | some ws ↦ record r { waiting = xs; workers = ws }
  ]
]

abbrev cancel : Round → Round
cancel r = elim r.waiting [ [] ↦ r | x ∷ xs ↦ record r { phase = Phase.closed Ending.canceled } ]

abbrev close : Round → Round
close r = elim r.waiting [ [] ↦ record r { phase = Phase.closed Ending.finished } | x ∷ xs ↦ r ]

-- A turn that cannot happen changes nothing.
unfoldable pub happen : Turn → Round → Round
happen (Turn.receives n) r = elim r.phase [
  | Phase.sending ↦ send n r
  | Phase.closed e ↦ r
  | Phase.returned e ↦ r
]
happen Turn.is_done r = elim r.phase [
  | Phase.sending ↦ cancel r
  | Phase.closed e ↦ r
  | Phase.returned e ↦ r
]
happen Turn.closes r = elim r.phase [
  | Phase.sending ↦ close r
  | Phase.closed e ↦ r
  | Phase.returned e ↦ r
]
happen (Turn.returns n) r = elim (collect_one n r.workers) [
  | none ↦ r
  | some p ↦ record r { workers = p.1; collected = p.0 ∷ r.collected }
]
happen (Turn.leaves n) r = elim r.phase [
  | Phase.sending ↦ r
  | Phase.closed e ↦ elim (leave n r.workers) [ none ↦ r | some ws ↦ record r { workers = ws } ]
  | Phase.returned e ↦ r
]
happen Turn.waits r = elim r.phase [
  | Phase.sending ↦ r
  | Phase.closed e ↦ if all_gone r.workers then record r { phase = Phase.returned e } else r
  | Phase.returned e ↦ r
]

unfoldable pub round : List Turn → Round → Round
round [] r = r
round (turn ∷ turns) r = round turns (happen turn r)

-- `RunOnce` for the sources that were listed, when the turns have happened
abbrev pub run_once : Scheduler → List ActiveSourceForCollection → List Turn → Round
run_once s sources turns = round turns (start (workers_for s sources) sources)
