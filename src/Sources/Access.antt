-- ===== src/Sources/Access.antt =====
-- Who may see and change a source.
use contentflow.Prelude.{
  ◌==◌, Sentinel, Err, is_error, Result, Proc, Result-cases, ok, err, select_where, first_where,
  count_where, All, update_where-none, first_where_hit, select_where-append, select_where-foreign,
  count_where-none, ℕ, suc, ◌≡◌, refl, ◌∙◌, inl, inr, Bool, false, none, List, [], ◌∷◌, arith,
}
use contentflow.Sources.Data.{
  Env, Source, CreateSourceRequest, ListSourcesRequest, GetSourceRequest, UpdateSourceRequest,
  World, next_tick,
}
use contentflow.Sources.Repository.{
  list_by_user_id, is_source_of, with_updates, as_stored, to_deleted, create,
  find_by_user_id_and_id, update, soft_delete,
}
use contentflow.Sources.Request.{SourceService}
use contentflow.Sources.Service.{
  create_checked, create_source, list_stored, list_sources, get_source, update_checked,
  update_source, delete_source, updated_name, updated_url, updated_config, updated_active,
}
use contentflow.Sources.Reachable.{Op, step, run}

abbrev pub refused : {A : Type 0} → Result A
refused = err (Err.sentinel Sentinel.source_not_accessible)

-- A source that is missing, deleted or another user's: reading, changing and deleting it are refused
-- in the same words and change no row, as long as the database answers.
pub foreign_source :
    (env : Env) (s : SourceService) (req : GetSourceRequest) (change : UpdateSourceRequest)
    (w : World)
    → change.user_id ≡ req.user_id
    → change.source_id ≡ req.source_id
    → ((n : ℕ) → env.fault n ≡ none)
    → first_where (is_source_of req.user_id req.source_id) w.sources ≡ none
    → ((get_source env s req w).0 ≡ refused)
      × ((update_source env s change w).0 ≡ refused)
      × ((update_source env s change w).1.sources ≡ w.sources)
      × ((delete_source env s req w).0 ≡ refused)
      × ((delete_source env s req w).1.sources ≡ w.sources)
unfolding get_source update_source delete_source find_by_user_id_and_id soft_delete is_error
foreign_source env s req change w mine this quiet missing =
    let p = is_source_of req.user_id req.source_id in
    let none_hit : count_where p w.sources ≡ 0 =
      count_where-none p p w.sources (λ x h. h) missing in
    (
      ground (arith, missing, quiet w.tick),
      ground (arith, missing, quiet w.tick, mine, this),
      ground (arith, missing, quiet w.tick, mine, this),
      ground (arith, none_hit, quiet (suc w.tick)),
      ground (
        arith,
        none_hit,
        quiet (suc w.tick),
        update_where-none p (to_deleted (env.clock w.tick)) w.sources none_hit,
      ),
    )

abbrev pub belongs_to : ℕ → Source → Bool
belongs_to user_id s = s.user_id == user_id

-- the user of a call
abbrev pub op_user : Op → ℕ
op_user (Op.creates req) = req.user_id
op_user (Op.lists req) = req.user_id
op_user (Op.gets_one req) = req.user_id
op_user (Op.updates req) = req.user_id
op_user (Op.deletes req) = req.user_id

module _ (env : Env) (s : SourceService) (user_id : ℕ) where
  -- the rows of the user
  abbrev own : World → List Source
  own w = select_where (belongs_to user_id) w.sources

  abbrev KeepsOwn : {A : Type 0} → Proc World A → Type 0
  KeepsOwn m = (w : World) → own (m w).1 ≡ own w

  create_checked-KeepsOwn :
      (src : Source) → (src.user_id == user_id) ≡ false → KeepsOwn (create_checked env s src)
  unfolding create_checked create
  create_checked-KeepsOwn src other w = ground (
    arith,
    other,
    select_where-append (belongs_to user_id) w.sources
        (as_stored env (record src { id = w.serial })),
  )

  create-KeepsOwn :
      (req : CreateSourceRequest)
      → (req.user_id == user_id) ≡ false
      → KeepsOwn (create_source env s req)
  unfolding create_source
  create-KeepsOwn req other w = grind (arith, create_checked-KeepsOwn)

  list-KeepsOwn : (req : ListSourcesRequest) → KeepsOwn (list_sources env s req)
  unfolding list_sources list_stored list_by_user_id
  list-KeepsOwn req w = ground arith

  get-KeepsOwn : (req : GetSourceRequest) → KeepsOwn (get_source env s req)
  unfolding get_source find_by_user_id_and_id
  get-KeepsOwn req w = ground arith

  delete-KeepsOwn :
      (req : GetSourceRequest)
      → (req.user_id == user_id) ≡ false
      → KeepsOwn (delete_source env s req)
  unfolding delete_source soft_delete
  delete-KeepsOwn req other w = ground (
    arith,
    select_where-foreign (belongs_to user_id) (is_source_of req.user_id req.source_id)
        (to_deleted (env.clock w.tick)) w.sources (λ x. refl) (λ x hit. ground arith),
  )

  update_checked-KeepsOwn :
      (caller : ℕ) (src : Source)
      → (src.user_id == user_id) ≡ false
      → KeepsOwn (update_checked env s caller src)
  unfolding update_checked update
  update_checked-KeepsOwn caller src other w = ground (
    arith,
    select_where-foreign (belongs_to user_id) (is_source_of src.user_id src.id)
        (with_updates (as_stored env src)) w.sources (λ x. refl) (λ x hit. ground arith),
  )

  found_user :
      (caller id : ℕ) (w : World) (r : Source)
      → (find_by_user_id_and_id env caller id w).0 ≡ ok r
      → r.user_id ≡ caller
  unfolding find_by_user_id_and_id
  found_user caller id w r found =
      ground (arith, first_where_hit (is_source_of caller id) w.sources r)

  revised_user :
      (req : UpdateSourceRequest) (r a b c : Source)
      → updated_name env s req r ≡ ok a
      → updated_url env s req a ≡ ok b
      → updated_config env s req b ≡ ok c
      → (updated_active env s req c).user_id ≡ r.user_id
  unfolding updated_name updated_url updated_config
  revised_user req r a b c named placed configured =
      let first : a.user_id ≡ r.user_id = ground arith in
      let second : b.user_id ≡ a.user_id = ground arith in
      let third : c.user_id ≡ b.user_id = ground arith in ground (arith, first, second, third)

  find-KeepsOwn : (caller id : ℕ) → KeepsOwn (find_by_user_id_and_id env caller id)
  unfolding find_by_user_id_and_id
  find-KeepsOwn caller id w = ground arith

  update-KeepsOwn :
      (req : UpdateSourceRequest)
      → (req.user_id == user_id) ≡ false
      → KeepsOwn (update_source env s req)
  unfolding update_source
  update-KeepsOwn req other w =
      elim (Result-cases (find_by_user_id_and_id env req.user_id req.source_id w).0) [
        | inr (e, bad) ↦ ground (arith, find-KeepsOwn req.user_id req.source_id w)
        | inl (r, found) ↦
            let w1 = (find_by_user_id_and_id env req.user_id req.source_id w).1 in
            let still = find-KeepsOwn req.user_id req.source_id w in
            elim (Result-cases (updated_name env s req r)) [
              | inr (e, bad) ↦ ground (arith, still)
              | inl (a, named) ↦ elim (Result-cases (updated_url env s req a)) [
                | inr (e, bad) ↦ ground (arith, still)
                | inl (b, placed) ↦ elim (Result-cases (updated_config env s req b)) [
                  | inr (e, bad) ↦ ground (arith, still)
                  | inl (c, configured) ↦
                      let t : Source = record (updated_active env s req c) {
                        updated_at = env.clock w1.tick;
                      } in
                      let foreign : (t.user_id == user_id) ≡ false = ground (
                        arith,
                        revised_user req r a b c named placed configured,
                        found_user req.user_id req.source_id w r found,
                        other,
                      ) in
                      ground
                        (arith, still, update_checked-KeepsOwn req.user_id t foreign (next_tick w1))
                ]
              ]
            ]
      ]

  step-KeepsOwn :
      (op : Op) → (op_user op == user_id) ≡ false → (w : World) → own (step env s op w) ≡ own w
  unfolding step
  step-KeepsOwn (Op.creates req) other w = create-KeepsOwn req other w
  step-KeepsOwn (Op.lists req) other w = list-KeepsOwn req w
  step-KeepsOwn (Op.gets_one req) other w = get-KeepsOwn req w
  step-KeepsOwn (Op.updates req) other w = update-KeepsOwn req other w
  step-KeepsOwn (Op.deletes req) other w = delete-KeepsOwn req other w

  -- Calls of other users leave the sources of a user as they were, row by row.
  pub run-own :
      (ops : List Op) (w : World)
      → All (λ op. (op_user op == user_id) ≡ false) ops
      → own (run env s ops w) ≡ own w
  unfolding run
  run-own [] w others = refl
  run-own (op ∷ ops) w others = run-own ops (step env s op w) others.1 ∙ step-KeepsOwn op others.0 w
