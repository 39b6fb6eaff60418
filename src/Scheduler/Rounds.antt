-- ===== src/Scheduler/Rounds.antt =====
-- What becomes of the sources of a round.
use contentflow.Prelude.{
  Bool-cases, Option-cases, pos, length, count_where, ℕ, ◌+◌, ◌≤◌, ◌≡◌, refl, ◌∙◌, inl, inr, Bool,
  true, false, List, [], ◌∷◌, arith,
}
use contentflow.Sources.Repository.{ActiveSourceForCollection}
use contentflow.Scheduler.{
  Goroutine, Ending, Phase, receive, collect_one, leave, all_gone, Scheduler, workers_for, Round,
  Turn, start, happen, round, run_once,
}
use contentflow.Scheduler.Goroutines.{
  held, receive-HasReceived, collect_one-HasCollected, leave-HasLeft, all_gone-held,
  start_workers_lem, held-length,
}

abbrev is_returned : Phase → Bool
is_returned Phase.sending = false
is_returned (Phase.closed e) = false
is_returned (Phase.returned e) = true

abbrev is_sent : Phase → Bool
is_sent Phase.sending = false
is_sent (Phase.closed Ending.finished) = true
is_sent (Phase.closed Ending.canceled) = false
is_sent (Phase.returned Ending.finished) = true
is_sent (Phase.returned Ending.canceled) = false

returned-sent : (e : Ending) → is_sent (Phase.returned e) ≡ true → is_sent (Phase.closed e) ≡ true
returned-sent Ending.finished h = refl
returned-sent Ending.canceled h = h

-- Every source that was listed waits, is in a worker or was collected; there are `n` workers; and
-- `RunOnce` closes the channel without a cancelled context after the last source, and returns after
-- the last worker.
record IsRound (p : ActiveSourceForCollection → Bool) (listed n : ℕ) (r : Round) : Type 0 where
  all_there :
      count_where p r.waiting + count_where p (held r.workers) + count_where p r.collected ≡ listed
  manned : length r.workers ≡ n
  sent : is_sent r.phase ≡ true → r.waiting ≡ []
  over : is_returned r.phase ≡ true → held r.workers ≡ []

module _ (p : ActiveSourceForCollection → Bool) (listed n : ℕ) where
  abbrev at :
      Phase
      → List ActiveSourceForCollection
      → List Goroutine
      → List ActiveSourceForCollection
      → Round
  at phase waiting workers collected = record {
    phase = phase;
    waiting = waiting;
    workers = workers;
    collected = collected;
  }

  receives-IsRound :
      (k : ℕ) (phase : Phase) (waiting : List ActiveSourceForCollection) (ws : List Goroutine)
      (done : List ActiveSourceForCollection)
      → IsRound p listed n (at phase waiting ws done)
      → IsRound p listed n (happen (Turn.receives k) (at phase waiting ws done))
  unfolding happen count_where receive
  receives-IsRound k Phase.sending [] ws done v = v
  receives-IsRound k Phase.sending (x ∷ xs) ws done v = elim (Option-cases (receive k x ws)) [
    | inl busy ↦ rw busy v
    | inr (us, taken) ↦
        let (counts, lengths) = receive-HasReceived p k x ws us taken in
        rw taken (record {
          all_there = ground (arith, v.all_there, counts);
          manned = lengths ∙ v.manned;
          sent = λ closed. absurd (ground (arith, closed));
          over = λ over. absurd (ground (arith, over));
        })
  ]
  receives-IsRound k (Phase.closed e) waiting ws done v = v
  receives-IsRound k (Phase.returned e) waiting ws done v = v

  is_done-IsRound :
      (phase : Phase) (waiting : List ActiveSourceForCollection) (ws : List Goroutine)
      (done : List ActiveSourceForCollection)
      → IsRound p listed n (at phase waiting ws done)
      → IsRound p listed n (happen Turn.is_done (at phase waiting ws done))
  unfolding happen
  is_done-IsRound Phase.sending [] ws done v = v
  is_done-IsRound Phase.sending (x ∷ xs) ws done v = record {
    all_there = v.all_there;
    manned = v.manned;
    sent = λ closed. absurd (ground (arith, closed));
    over = λ over. absurd (ground (arith, over));
  }
  is_done-IsRound (Phase.closed e) waiting ws done v = v
  is_done-IsRound (Phase.returned e) waiting ws done v = v

  closes-IsRound :
      (phase : Phase) (waiting : List ActiveSourceForCollection) (ws : List Goroutine)
      (done : List ActiveSourceForCollection)
      → IsRound p listed n (at phase waiting ws done)
      → IsRound p listed n (happen Turn.closes (at phase waiting ws done))
  unfolding happen
  closes-IsRound Phase.sending [] ws done v = record {
    all_there = v.all_there;
    manned = v.manned;
    sent = λ closed. refl;
    over = λ over. absurd (ground (arith, over));
  }
  closes-IsRound Phase.sending (x ∷ xs) ws done v = v
  closes-IsRound (Phase.closed e) waiting ws done v = v
  closes-IsRound (Phase.returned e) waiting ws done v = v

  returns-IsRound :
      (k : ℕ) (r : Round) → IsRound p listed n r → IsRound p listed n (happen (Turn.returns k) r)
  unfolding happen count_where
  returns-IsRound k r v = elim (Option-cases (collect_one k r.workers)) [
    | inl idle ↦ rw (happen, idle) v
    | inr (q, picked) ↦
        let (counts, helds, lengths) = collect_one-HasCollected p k r.workers q picked in
        rw (happen, picked)
          (record {
            all_there = ground (arith, v.all_there, counts);
            manned = lengths ∙ v.manned;
            sent = v.sent;
            over = λ over. absurd (ground (arith, v.over over, helds));
          })
  ]

  leaves-IsRound :
      (k : ℕ) (phase : Phase) (waiting : List ActiveSourceForCollection) (ws : List Goroutine)
      (done : List ActiveSourceForCollection)
      → IsRound p listed n (at phase waiting ws done)
      → IsRound p listed n (happen (Turn.leaves k) (at phase waiting ws done))
  unfolding happen leave
  leaves-IsRound k Phase.sending waiting ws done v = v
  leaves-IsRound k (Phase.closed e) waiting ws done v = elim (Option-cases (leave k ws)) [
    | inl working ↦ rw working v
    | inr (us, left) ↦
        let (same, lengths) = leave-HasLeft k ws us left in
        rw left (record {
          all_there = rw same v.all_there;
          manned = lengths ∙ v.manned;
          sent = v.sent;
          over = λ over. absurd (ground (arith, over));
        })
  ]
  leaves-IsRound k (Phase.returned e) waiting ws done v = v

  waits-IsRound :
      (phase : Phase) (waiting : List ActiveSourceForCollection) (ws : List Goroutine)
      (done : List ActiveSourceForCollection)
      → IsRound p listed n (at phase waiting ws done)
      → IsRound p listed n (happen Turn.waits (at phase waiting ws done))
  unfolding happen
  waits-IsRound Phase.sending waiting ws done v = v
  waits-IsRound (Phase.closed e) waiting ws done v = elim (Bool-cases (all_gone ws)) [
    | inr working ↦ rw working v
    | inl ended ↦ rw ended (record {
      all_there = v.all_there;
      manned = v.manned;
      sent = λ nil. v.sent (returned-sent e nil);
      over = λ over. all_gone-held ws ended;
    })
  ]
  waits-IsRound (Phase.returned e) waiting ws done v = v

  happen-IsRound :
      (turn : Turn) (r : Round) → IsRound p listed n r → IsRound p listed n (happen turn r)
  happen-IsRound (Turn.receives k) r v =
      receives-IsRound k r.phase r.waiting r.workers r.collected v
  happen-IsRound Turn.is_done r v = is_done-IsRound r.phase r.waiting r.workers r.collected v
  happen-IsRound Turn.closes r v = closes-IsRound r.phase r.waiting r.workers r.collected v
  happen-IsRound (Turn.returns k) r v = returns-IsRound k r v
  happen-IsRound (Turn.leaves k) r v = leaves-IsRound k r.phase r.waiting r.workers r.collected v
  happen-IsRound Turn.waits r v = waits-IsRound r.phase r.waiting r.workers r.collected v

  round-IsRound :
      (turns : List Turn) (r : Round) → IsRound p listed n r → IsRound p listed n (round turns r)
  unfolding round
  round-IsRound [] r v = v
  round-IsRound (turn ∷ turns) r v = round-IsRound turns (happen turn r) (happen-IsRound turn r v)

run_once-IsRound :
    (s : Scheduler) (sources : List ActiveSourceForCollection) (turns : List Turn)
    (p : ActiveSourceForCollection → Bool)
    → IsRound p (count_where p sources) (workers_for s sources) (run_once s sources turns)
unfolding count_where
run_once-IsRound s sources turns p =
    let (manned, idle) = start_workers_lem (workers_for s sources) in
    round-IsRound p (count_where p sources) (workers_for s sources) turns
      (start (workers_for s sources) sources)
      (record {
        all_there = rw idle (omega arith);
        manned = manned;
        sent = λ closed. absurd (ground (arith, closed));
        over = λ over. absurd (ground (arith, over));
      })

-- When `RunOnce` has returned nil, every source was collected as often as it was listed, in whatever
-- order the workers took the sources and returned: of each kind of sources, which `p` tells, as many
-- were collected as were listed.
pub run_once-collected :
    (s : Scheduler) (sources : List ActiveSourceForCollection) (turns : List Turn)
    (p : ActiveSourceForCollection → Bool)
    → (run_once s sources turns).phase ≡ Phase.returned Ending.finished
    → count_where p (run_once s sources turns).collected ≡ count_where p sources
unfolding count_where
run_once-collected s sources turns p nil =
    let v = run_once-IsRound s sources turns p in
    let none_waits : (run_once s sources turns).waiting ≡ [] = v.sent (rw nil refl) in
    let none_held : held (run_once s sources turns).workers ≡ [] = v.over (rw nil refl) in
    ground (arith, v.all_there, none_waits, none_held)

-- If the scheduler allows one collection at a time or more, then at any time of a round at most as
-- many sources are being collected as it allows.
pub run_once-bounded :
    (s : Scheduler) (limit : ℕ) (sources : List ActiveSourceForCollection) (turns : List Turn)
    → s.concurrency ≡ pos limit
    → 1 ≤ limit
    → length (held (run_once s sources turns).workers) ≤ limit
run_once-bounded s limit sources turns allowed some_worker =
    let v = run_once-IsRound s sources turns (λ x. true) in
    let few : workers_for s sources ≤ limit = ground (arith, allowed, some_worker) in
    omega (arith, v.manned, few, held-length (run_once s sources turns).workers)
