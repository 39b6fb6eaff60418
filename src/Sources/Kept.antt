-- ===== src/Sources/Kept.antt =====
-- Every call of the service keeps the table of sources as it should be.
use contentflow.Prelude.{
  if◌then◌else◌, Bool-cases, Proc, Result-cases, ok, first_where, update_where, All,
  first_where_hit, All-first_where, All_of, All-mono, All-zip, Pairwise, All-updated,
  Pairwise-update_where, ℕ, suc, ◌≡◌, sym, ap, inl, inr, Bool, true, some, List, [], ◌∷◌, arith,
}
use mathlib.Core.Path.{subst}
use contentflow.Sources.Revision.{
  IsRevision, url_of_type-placed, config-IsDiscreet, updated-IsRevision,
}
use contentflow.Sources.Jsonb.{IsJsonb, stored-IsDiscreet}
use contentflow.Sources.Data.{
  Env, Source, CreateSourceRequest, ListSourcesRequest, GetSourceRequest, UpdateSourceRequest,
  World, next_tick, is_valid_type,
}
use contentflow.Sources.Config.{normalize_source_config}
use contentflow.Sources.Repository.{
  list_by_user_id, is_source_of, to_deleted, find_by_user_id_and_id, soft_delete, as_stored,
  with_updates,
}
use contentflow.Sources.Request.{SourceService, normalize_name, normalize_type, url_of_type}
use contentflow.Sources.Service.{
  create_checked, new_source, create_source, list_stored, list_sources, get_source, updated_name,
  updated_url, updated_config, updated_active, update_checked, update_source, delete_source,
}
use contentflow.Sources.History.{
  IsApart, IsValidRow, IsValidStore, create-IsValid, updated-IsValidRow, update-IsValid,
}

module _ (env : Env) where
  ticked : (w : World) → IsValidStore env w → IsValidStore env (next_tick w)
  ticked w v = record { rows = v.rows; apart = v.apart }

  deleted-IsApart :
      (p : Source → Bool) (at : ℕ) (x y : Source)
      → IsApart x y
      → IsApart (if p x then to_deleted at x else x) (if p y then to_deleted at y else y)
  deleted-IsApart p at x y apart = record {
    ids = ground (arith, apart.ids);
    urls = ground (arith, apart.urls);
  }

  deleted-IsValidRow :
      (n at : ℕ) (s : Source) → IsValidRow env n s → IsValidRow env n (to_deleted at s)
  deleted-IsValidRow n at s v = record {
    numbered = v.numbered;
    known = v.known;
    placed = v.placed;
    discreet = v.discreet;
  }

  soft_delete-IsValid :
      (user_id id at : ℕ) (w : World)
      → IsValidStore env w
      → IsValidStore env (soft_delete env user_id id at w).1
  unfolding soft_delete
  soft_delete-IsValid user_id id at w v =
      let store : IsValidStore env (record (next_tick w) {
        sources = update_where (is_source_of user_id id) (to_deleted at) w.sources;
      }) =
        record {
          rows =
              All-updated (IsValidRow env w.serial) (IsValidRow env w.serial)
                (is_source_of user_id id) (to_deleted at) w.sources
                (λ x row.
                  updated-IsValidRow env (is_source_of user_id id) (to_deleted at) w.serial x row
                    (λ hit. deleted-IsValidRow w.serial at x row))
                v.rows;
          apart =
              Pairwise-update_where IsApart (λ x. Unit {0}) (is_source_of user_id id)
                (to_deleted at) w.sources
                (λ x y px py apart. deleted-IsApart (is_source_of user_id id) at x y apart)
                (All_of (λ x. tt) w.sources) v.apart;
        } in
      ground (arith, v, store)

  -- The row that a search finds is the only one for its user and id.
  found_kind :
      (user_id id : ℕ) (xs : List Source) (r : Source)
      → first_where (is_source_of user_id id) xs ≡ some r
      → Pairwise IsApart xs
      → All (λ x. is_source_of user_id id x ≡ true → x.kind ≡ r.kind) xs
  unfolding first_where
  found_kind user_id id [] r found apart = tt
  found_kind user_id id (x ∷ xs) r found apart = elim (Bool-cases (is_source_of user_id id x)) [
    | inl hit ↦ (
      (λ same. ground arith),
      All-mono (λ y far at_y. absurd (ground (arith, far.ids, hit, at_y))) xs apart.0,
    )
    | inr miss ↦
        ((λ same. absurd (ground arith)), found_kind user_id id xs r (ground arith) apart.1)
  ]

module _ (env : Env) (s : SourceService) where
  -- a procedure that keeps the table as it should be
  abbrev pub Keeps : {A : Type 0} → Proc World A → Type 0
  Keeps m = (w : World) → IsValidStore env w → IsValidStore env (m w).1

  create_checked-Keeps :
      (src : Source)
      → ((n : ℕ) → IsValidRow env (suc n) (as_stored env (record src { id = n })))
      → Keeps (create_checked env s src)
  unfolding create_checked
  create_checked-Keeps src good w v = ground (arith, create-IsValid env src w good v)

  pub list-Keeps : (req : ListSourcesRequest) → Keeps (list_sources env s req)
  unfolding list_sources list_stored list_by_user_id
  list-Keeps req w v = ground (arith, v)

  pub get-Keeps : (req : GetSourceRequest) → Keeps (get_source env s req)
  unfolding get_source find_by_user_id_and_id
  get-Keeps req w v = ground (arith, v)

  pub delete-Keeps : (req : GetSourceRequest) → Keeps (delete_source env s req)
  unfolding delete_source
  delete-Keeps req w v = ground (
    arith,
    soft_delete-IsValid env req.user_id req.source_id (env.clock w.tick) (next_tick w)
        (ticked env w v),
  )

  pub create-Keeps : IsJsonb env → (req : CreateSourceRequest) → Keeps (create_source env s req)
  unfolding create_source
  create-Keeps json req w v = elim (Result-cases (normalize_name req.name)) [
    | inr (e, bad) ↦ ground (arith, v)
    | inl (name, named) ↦ elim (Bool-cases (is_valid_type (normalize_type env req.kind))) [
      | inr unknown ↦ ground (arith, v)
      | inl known ↦
          let kind = normalize_type env req.kind in
          elim (Result-cases (url_of_type env kind req.url)) [
            | inr (e, bad) ↦ ground (arith, v)
            | inl (url, placed) ↦
                elim (Result-cases (normalize_source_config env kind req.config)) [
                  | inr (e, bad) ↦ ground (arith, v)
                  | inl (config, configured) ↦ ground (
                    arith,
                    create_checked-Keeps
                        (new_source env s req name kind url config (env.clock w.tick))
                        (λ n. record {
                          numbered = omega arith;
                          known = known;
                          placed = url_of_type-placed env kind req.url url placed;
                          discreet = λ email.
                              stored-IsDiscreet env json config
                                (config-IsDiscreet env kind req.config config configured email);
                        })
                        (next_tick w) (ticked env w v),
                  )
                ]
          ]
    ]
  ]

  found_row :
      (user_id id : ℕ) (w : World) (r : Source)
      → (find_by_user_id_and_id env user_id id w).0 ≡ ok r
      → (first_where (is_source_of user_id id) w.sources ≡ some r)
        × ((find_by_user_id_and_id env user_id id w).1 ≡ next_tick w)
  unfolding find_by_user_id_and_id
  found_row user_id id w r done = ground arith

  -- a row with the contents of a revision of a row of its type
  written-IsValidRow :
      IsJsonb env
      → (n : ℕ) (r t x : Source) → IsRevision env n r t
      → IsValidRow env n x
      → x.kind ≡ r.kind
      → IsValidRow env n (with_updates (as_stored env t) x)
  written-IsValidRow json n r t x revision row same = record {
    numbered = row.numbered;
    known = row.known;
    placed = ground (arith, revision.valid.placed, revision.same_kind, same);
    discreet = λ email.
        stored-IsDiscreet env json t.config_json
          (revision.valid.discreet (ground (arith, email, revision.same_kind, same)));
  }

  own_row :
      (user_id id : ℕ) (xs : List Source) (r : Source)
      → first_where (is_source_of user_id id) xs ≡ some r
      → first_where (is_source_of r.user_id r.id) xs ≡ some r
  own_row user_id id xs r found =
      let hit = first_where_hit (is_source_of user_id id) xs r found in
      let user : r.user_id ≡ user_id = ground arith in
      let same : r.id ≡ id = ground arith in
      let test : is_source_of r.user_id r.id ≡ is_source_of user_id id =
        ap (λ (pair : ℕ × ℕ). is_source_of pair.0 pair.1) (λ i. (user i, same i)) in
      subst (λ p. first_where p xs ≡ some r) (sym test) found

  update_checked-Keeps :
      IsJsonb env
      → (user_id : ℕ) (r t : Source) (w : World)
      → first_where (is_source_of r.user_id r.id) w.sources ≡ some r
      → IsRevision env w.serial r t
      → IsValidStore env w
      → IsValidStore env (update_checked env s user_id t w).1
  unfolding update_checked
  update_checked-Keeps json user_id r t w found revision v =
      let fits : All
          (λ x.
            is_source_of t.user_id t.id x ≡ true
            → IsValidRow env w.serial (with_updates (as_stored env t) x))
          w.sources =
        All-mono
          (λ x
              (both : IsValidRow env w.serial x
                × (is_source_of r.user_id r.id x ≡ true → x.kind ≡ r.kind)).
            λ (hit : is_source_of t.user_id t.id x ≡ true).
              written-IsValidRow json w.serial r t x revision both.0
                (both.1 (ground (arith, hit, revision.same_id, revision.same_user))))
          w.sources
          (All-zip (IsValidRow env w.serial)
            (λ x. is_source_of r.user_id r.id x ≡ true → x.kind ≡ r.kind) w.sources v.rows
            (found_kind env r.user_id r.id w.sources r found v.apart)) in
      ground (arith, update-IsValid env t w fits v)

  missing-Keeps : (user_id id : ℕ) → Keeps (find_by_user_id_and_id env user_id id)
  unfolding find_by_user_id_and_id
  missing-Keeps user_id id w v = ground (arith, v)

  pub update-Keeps : IsJsonb env → (req : UpdateSourceRequest) → Keeps (update_source env s req)
  unfolding update_source
  update-Keeps json req w v =
      elim (Result-cases (find_by_user_id_and_id env req.user_id req.source_id w).0) [
        | inr (e, bad) ↦ ground (arith, missing-Keeps req.user_id req.source_id w v)
        | inl (r, found) ↦
            let (there, after) = found_row req.user_id req.source_id w r found in
            let row =
              All-first_where (IsValidRow env w.serial) (is_source_of req.user_id req.source_id)
                w.sources r v.rows there in
            elim (Result-cases (updated_name env s req r)) [
              | inr (e, bad) ↦ ground (arith, ticked env w v)
              | inl (a, named) ↦ elim (Result-cases (updated_url env s req a)) [
                | inr (e, bad) ↦ ground (arith, ticked env w v)
                | inl (b, placed) ↦ elim (Result-cases (updated_config env s req b)) [
                  | inr (e, bad) ↦ ground (arith, ticked env w v)
                  | inl (c, configured) ↦
                      let w' = next_tick w in
                      let now = env.clock w'.tick in
                      ground (
                        arith,
                        update_checked-Keeps json req.user_id r
                            (record (updated_active env s req c) { updated_at = now })
                            (next_tick w') (own_row req.user_id req.source_id w.sources r there)
                            (updated-IsRevision env s w.serial req now r a b c row named placed
                              configured)
                            (ticked env w' (ticked env w v)),
                      )
                ]
              ]
            ]
      ]
