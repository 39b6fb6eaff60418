-- ===== src/CollectionJob/Outbox/History.antt =====
-- What holds of the outbox after any sequence of operations on it.
use contentflow.Prelude.{
  ℤ, first_where, All_of, All-mono, ℕ, String, ◌≡◌, refl, true, some, List, [], ◌∷◌, arith,
}
use contentflow.CollectionJob.Env.{Env, World, OutboxEventModel, next_tick}
use contentflow.CollectionJob.Outbox.{
  claim_ready, create, claimable, update_claimed, mark_sent, mark_failed,
}
use contentflow.CollectionJob.Outbox.Row.{
  has_id, id_in, ids, CreateOutboxEventParams, is_active_outbox_status, normalize_limit,
  to_processing, is_claimed_by, to_sent, to_failed,
}
use contentflow.CollectionJob.Outbox.Ids.{
  IsNumbered, IsNumbered-append, IsNumbered-update, found_by_id,
}
use contentflow.CollectionJob.Outbox.Claim.{chosen-ready}
use contentflow.CollectionJob.Outbox.Unique.{
  IsUniqueActive, IsTame, IsUniqueActive-update, IsUniqueActive-append,
}

-- The ids are in order, and no two active events have the same topic and key.
pub record IsValid (w : World) : Type 0 where
  pub numbered : IsNumbered w.serial w.outbox
  pub unique : IsUniqueActive w.outbox

pub create-IsValid :
    (env : Env) (params : CreateOutboxEventParams) (w : World)
    → IsValid w
    → IsValid (create env params w).1
unfolding create
create-IsValid env params w v = record {
  numbered = grind (arith, IsNumbered-append);
  unique = grind (arith, IsUniqueActive-append);
}

processing-IsTame :
    (env : Env) (now limit : ℕ) (claim_id : String) (until : ℕ) (w w' : World)
    → IsNumbered w.serial w.outbox
    → w'.outbox ≡ w.outbox
    → IsTame (id_in (ids (claimable env now limit w'))) (to_processing claim_id until now) w.outbox
processing-IsTame env now limit claim_id until w w' h same = record {
  topic = λ m. refl;
  key = λ m. refl;
  active =
      All-mono {P = λ m. first_where (has_id m.id) w.outbox ≡ some m}
        (λ m f listed act.
          ground (arith, chosen-ready env now limit w w' w.serial m h same f listed))
        w.outbox (found_by_id w.serial w.outbox h);
}

pub claim_ready-IsValid :
    (env : Env) (now : ℕ) (limit : ℤ) (claim_id : String) (until : ℕ) (w : World)
    → IsValid w
    → IsValid (claim_ready env now limit claim_id until w).1
unfolding claim_ready
claim_ready-IsValid env now limit claim_id until w v =
    let w' = next_tick (next_tick w) in
    let chosen = id_in (ids (claimable env now (normalize_limit limit) w')) in
    record {
      numbered = ground (
        arith,
        v.numbered,
        IsNumbered-update w.serial chosen (to_processing claim_id until now) w.outbox (λ m. refl)
            v.numbered,
      );
      unique = ground (
        arith,
        v.unique,
        IsUniqueActive-update chosen (to_processing claim_id until now) w.outbox
            (processing-IsTame env now (normalize_limit limit) claim_id until w w' v.numbered refl)
            v.unique,
      );
    }

update_claimed-IsValid :
    (env : Env) (id : ℕ) (claim_id : String) (updates : OutboxEventModel → OutboxEventModel)
    (w : World)
    → ((m : OutboxEventModel) → (updates m).id ≡ m.id)
    → IsTame (is_claimed_by id claim_id) updates w.outbox
    → IsValid w
    → IsValid (update_claimed env id claim_id updates w).1
unfolding update_claimed
update_claimed-IsValid env id claim_id updates w keep tame v = record {
  numbered = ground (
    arith,
    v.numbered,
    IsNumbered-update w.serial (is_claimed_by id claim_id) updates w.outbox keep v.numbered,
  );
  unique = ground (
    arith,
    v.unique,
    IsUniqueActive-update (is_claimed_by id claim_id) updates w.outbox tame v.unique,
  );
}

claimed-active :
    (id : ℕ) (claim_id : String) (m : OutboxEventModel)
    → is_claimed_by id claim_id m ≡ true
    → is_active_outbox_status m.status ≡ true
claimed-active id claim_id m h = ground arith

module _ (env : Env) (id : ℕ) (claim_id : String) where
  pub mark_sent-IsValid :
      (at : ℕ) (w : World) → IsValid w → IsValid (mark_sent env id claim_id at w).1
  unfolding mark_sent
  mark_sent-IsValid at w v =
      update_claimed-IsValid env id claim_id (to_sent at) w (λ m. refl)
        (record {
          topic = λ m. refl;
          key = λ m. refl;
          active = All_of (λ m hit act. claimed-active id claim_id m hit) w.outbox;
        })
        v

  pub mark_failed-IsValid :
      (attempts : ℤ) (next : ℕ) (text : String) (w : World)
      → IsValid w
      → IsValid (mark_failed env id claim_id attempts next text w).1
  unfolding mark_failed
  mark_failed-IsValid attempts next text w v =
      update_claimed-IsValid env id claim_id (to_failed attempts next text) w (λ m. refl)
        (record {
          topic = λ m. refl;
          key = λ m. refl;
          active = All_of (λ m hit act. claimed-active id claim_id m hit) w.outbox;
        })
        v

-- A call of the repository.
pub data Op : Type 0 where
  creates : CreateOutboxEventParams → Op
  claims : ℕ → ℤ → String → ℕ → Op
  sends : ℕ → String → ℕ → Op
  fails : ℕ → String → ℤ → ℕ → String → Op

module _ (env : Env) where
  pub step : Op → World → World
  step (creates params) w = (create env params w).1
  step (claims now limit claim_id until) w = (claim_ready env now limit claim_id until w).1
  step (sends id claim_id at) w = (mark_sent env id claim_id at w).1
  step (fails id claim_id attempts next text) w =
      (mark_failed env id claim_id attempts next text w).1

  pub run : List Op → World → World
  run [] w = w
  run (op ∷ ops) w = run ops (step op w)

  step-IsValid : (op : Op) (w : World) → IsValid w → IsValid (step op w)
  unfolding step
  step-IsValid (creates params) w v = create-IsValid env params w v
  step-IsValid (claims now limit claim_id until) w v =
      claim_ready-IsValid env now limit claim_id until w v
  step-IsValid (sends id claim_id at) w v = mark_sent-IsValid env id claim_id at w v
  step-IsValid (fails id claim_id attempts next text) w v =
      mark_failed-IsValid env id claim_id attempts next text w v

-- Whatever operations are made on a valid outbox, and whichever of their statements fail, no two
-- active events have the same topic and key, and every id is found at one row only.
pub run-IsValid : (env : Env) (ops : List Op) (w : World) → IsValid w → IsValid (run env ops w)
unfolding run
run-IsValid env [] w v = v
run-IsValid env (op ∷ ops) w v = run-IsValid env ops (step env op w) (step-IsValid env op w v)
