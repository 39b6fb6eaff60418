-- ===== src/Sources/Repository.antt =====
-- internal/module/source/repository.go.
use contentflow.Prelude.{
  ltb, leb, ◌==◌, if◌then◌else◌, is_some, ℤ, pos, pos_part, ltb_ℤ, leb_ℤ, Sentinel, Err, is_error,
  Proc, pure, raise, gets, wrapping, modify, ◌>>=◌, ◌>>◌, ok, err, take, drop, select_where,
  first_where, count_where, update_where, order_by, ℕ, suc, String, Bool, true, false, ◌&&◌, ◌||◌,
  not, Option, none, some, List, [], ◌∷◌, ◌++◌, map, str_eq,
}
use contentflow.Sources.Data.{Env, Source, ListSourcesRequest, World, next_tick, statement}

-- `ActiveSourceForCollection`
pub record ActiveSourceForCollection : Type 0 where
  pub id : ℕ
  pub user_id : ℕ
  pub kind : String
  pub last_fetched_at : Option ℕ

abbrev pub same_url : Option String → Option String → Bool
same_url none b = false
same_url (some a) none = false
same_url (some a) (some b) = str_eq a b

-- idx_sources_user_url_active: a row that stands in the way of the URL for the user
abbrev pub is_url_taken : ℕ → Option String → Source → Bool
is_url_taken user_id url s =
    s.user_id == user_id && same_url s.url url && not (is_some s.deleted_at)

-- `user_id = ? AND id = ? AND deleted_at IS NULL`
abbrev pub is_source_of : ℕ → ℕ → Source → Bool
is_source_of user_id id s = s.user_id == user_id && s.id == id && not (is_some s.deleted_at)

abbrev pub is_other_url_taken : Source → Source → Bool
is_other_url_taken src s = not (s.id == src.id) && is_url_taken src.user_id src.url s

-- `user_id = ? AND deleted_at IS NULL`, and `type = ?` where a type is given
abbrev pub is_listed : ℕ → String → Source → Bool
is_listed user_id kind s =
    s.user_id == user_id && not (is_some s.deleted_at) && (str_eq kind "" || str_eq s.kind kind)

abbrev newest_first : Source → Source → Bool
newest_first a b = leb b.created_at a.created_at

-- `last_fetched_at ASC NULLS FIRST`, then `created_at ASC`
abbrev longest_unfetched : Source → Source → Bool
longest_unfetched a b = elim (a.last_fetched_at) [
  | none ↦ is_some b.last_fetched_at || leb a.created_at b.created_at
  | some x ↦ elim (b.last_fetched_at) [
    | none ↦ false
    | some y ↦ ltb x y || (x == y && leb a.created_at b.created_at)
  ]
]

abbrev is_collected : Source → Bool
is_collected s = s.is_active && not (is_some s.deleted_at)

abbrev to_active : Source → ActiveSourceForCollection
to_active s = record {
  id = s.id;
  user_id = s.user_id;
  kind = s.kind;
  last_fetched_at = s.last_fetched_at;
}

-- what `Updates` writes
abbrev pub with_updates : Source → Source → Source
with_updates src s = record s {
  name = src.name;
  url = src.url;
  config_json = src.config_json;
  is_active = src.is_active;
  last_fetched_at = src.last_fetched_at;
  last_fetch_status = src.last_fetch_status;
  last_fetch_message = src.last_fetch_message;
  updated_at = src.updated_at;
}

-- a row as the database keeps it: config_json is a JSONB column
abbrev pub as_stored : Env → Source → Source
as_stored env src = record src { config_json = env.jsonb src.config_json }

abbrev pub to_deleted : ℕ → Source → Source
to_deleted at s = record s { deleted_at = some at; updated_at = at; is_active = false }

module _ (env : Env) where
  abbrev written : String → Err → Err
  written text e =
      if is_error e Sentinel.duplicated_key
      then Err.sentinel Sentinel.source_url_duplicated
      else Err.wrap text e

  -- `Create`; the id of the argument is replaced by the one of the row,
  -- and its configuration stays the text that was given
  unfoldable pub create : Source → Proc World Source
  create src w = elim (env.fault w.tick) [
    | some e ↦ (err (written "create source" e), next_tick w)
    | none ↦ elim (first_where (is_url_taken src.user_id src.url) w.sources) [
      | some s ↦ (err (Err.sentinel Sentinel.source_url_duplicated), next_tick w)
      | none ↦
          let s = record src { id = w.serial } in
          (
            ok s,
            record w {
              tick = suc w.tick;
              serial = suc w.serial;
              sources = w.sources ++ as_stored env s ∷ [];
            },
          )
    ]
  ]

  -- `FindByUserIDAndID`
  unfoldable pub find_by_user_id_and_id : ℕ → ℕ → Proc World Source
  find_by_user_id_and_id user_id id w = elim (env.fault w.tick) [
    | some e ↦
        if is_error e Sentinel.record_not_found
        then (err (Err.sentinel Sentinel.source_not_found), next_tick w)
        else (err (Err.wrap "find source by user id and id" e), next_tick w)
    | none ↦ elim (first_where (is_source_of user_id id) w.sources) [
      | none ↦ (err (Err.sentinel Sentinel.source_not_found), next_tick w)
      | some s ↦ (ok s, next_tick w)
    ]
  ]

  -- `ListByUserID`: two statements
  unfoldable pub list_by_user_id : ListSourcesRequest → Proc World (List Source × ℕ)
  list_by_user_id params = do
    wrapping "count sources by user id" (statement env)
    total ← gets (λ w. count_where (is_listed params.user_id params.kind) w.sources)
    wrapping "list sources by user id" (statement env)
    rows ← gets (λ w. select_where (is_listed params.user_id params.kind) w.sources)
    let limit : ℕ =
        if leb_ℤ params.limit (pos 0)
        then 20
        else if ltb_ℤ (pos 100) params.limit
        then 100
        else pos_part params.limit
    pure (take limit (drop (pos_part params.offset) (order_by newest_first rows)), total)

  -- `ListActiveForCollection`
  unfoldable pub list_active_for_collection : ℤ → Proc World (List ActiveSourceForCollection)
  list_active_for_collection limit = do
    wrapping "list active sources for collection" (statement env)
    rows ← gets (λ w. order_by longest_unfetched (select_where is_collected w.sources))
    pure (map to_active (take (if leb_ℤ limit (pos 0) then 100 else pos_part limit) rows))

  -- `Update`
  unfoldable pub update : Source → Proc World (Unit {0})
  update src w = elim (env.fault w.tick) [
    | some e ↦ (err (written "update source" e), next_tick w)
    | none ↦ elim (first_where (is_source_of src.user_id src.id) w.sources) [
      | none ↦ (err (Err.sentinel Sentinel.source_not_found), next_tick w)
      | some s ↦ elim (first_where (is_other_url_taken src) w.sources) [
        | some other ↦ (err (Err.sentinel Sentinel.source_url_duplicated), next_tick w)
        | none ↦ (
          ok tt,
          record w {
            tick = suc w.tick;
            sources =
                update_where (is_source_of src.user_id src.id) (with_updates (as_stored env src))
                  w.sources;
          },
        )
      ]
    ]
  ]

  -- `SoftDelete`
  unfoldable pub soft_delete : ℕ → ℕ → ℕ → Proc World (Unit {0})
  soft_delete user_id id deleted_at = do
    wrapping "soft delete source" (statement env)
    affected ← gets (λ w. count_where (is_source_of user_id id) w.sources)
    modify (λ w. record w {
      sources = update_where (is_source_of user_id id) (to_deleted deleted_at) w.sources;
    })
    elim (affected == 0) [ true ↦ raise (Err.sentinel Sentinel.source_not_found) | false ↦ pure tt ]
