-- ===== src/Articles/Repository.antt =====
-- internal/module/article/repository.go.
use contentflow.Prelude.{
  ltb, leb, ◌==◌, if◌then◌else◌, is_some, pos, pos_part, leb_ℤ, trim_space, Sentinel, Err, is_error,
  Proc, gets, wrapping, ◌>>=◌, ◌>>◌, ok, err, take, drop, select_where, first_where, count_where,
  update_where, order_by, ℕ, suc, String, Bool, true, false, ◌&&◌, ◌||◌, not, Option, none, some,
  List, [], ◌∷◌, ◌++◌, map, str_eq,
}
use contentflow.Articles.Data.{
  Env, Article, ArticleState, ArticleWithState, ListArticlesRequest, SourceRow, World, next_tick,
  statement, UpdateArticleStateRequest,
}

-- idx_articles_source_external_id, where NULL equals nothing
abbrev pub same_external_id : Option String → Option String → Bool
same_external_id none b = false
same_external_id (some a) none = false
same_external_id (some a) (some b) = str_eq a b

-- The row `b` keeps `a` out: one of the two unique indexes of the articles would be broken.
abbrev pub is_conflict : Article → Article → Bool
is_conflict a b =
    b.source_id == a.source_id
    && (same_external_id b.external_id a.external_id || str_eq b.content_hash a.content_hash)

abbrev pub is_source_of : ℕ → Article → SourceRow → Bool
is_source_of user_id a s = s.id == a.source_id && s.user_id == user_id && not (is_some s.deleted_at)

abbrev pub is_state_of : ℕ → ℕ → ArticleState → Bool
is_state_of user_id article_id st = st.article_id == article_id && st.user_id == user_id

abbrev pub has_article_id : ℕ → Article → Bool
has_article_id id a = a.id == id

-- the assignments of `UpsertState` for one flag and its time
abbrev pub with_read : Option Bool → ℕ → ArticleState → ArticleState
with_read none now st = st
with_read (some b) now st = record st { is_read = b; read_at = if b then some now else none }

abbrev pub with_saved : Option Bool → ℕ → ArticleState → ArticleState
with_saved none now st = st
with_saved (some b) now st = record st { is_saved = b; saved_at = if b then some now else none }

abbrev pub new_state : ℕ → ℕ → ℕ → ℕ → ArticleState
new_state user_id article_id now id = record {
  id = id;
  user_id = user_id;
  article_id = article_id;
  is_read = false;
  is_saved = false;
  read_at = none;
  saved_at = none;
  created_at = now;
  updated_at = now;
}

-- the conflict branch of the upsert, and the row that it inserts otherwise
abbrev pub assigned : UpdateArticleStateRequest → ℕ → ArticleState → ArticleState
assigned p now st =
    with_saved p.is_saved now (with_read p.is_read now (record st { updated_at = now }))

abbrev pub inserted : UpdateArticleStateRequest → ℕ → ℕ → ArticleState
inserted p now id =
    with_saved p.is_saved now (with_read p.is_read now (new_state p.user_id p.article_id now id))

module _ (env : Env) where
  -- `CreateIfNotExists`: whether a row was inserted
  unfoldable pub create_if_not_exists : Article → Proc World Bool
  create_if_not_exists a w = elim (env.fault w.tick) [
    | some e ↦ (err (Err.wrap "create article if not exists" e), next_tick w)
    | none ↦ elim (first_where (is_conflict a) w.articles) [
      | some b ↦ (ok false, next_tick w)
      | none ↦ (
        ok true,
        record w {
          tick = suc w.tick;
          serial = suc w.serial;
          articles = w.articles ++ record a { id = w.serial } ∷ [];
        },
      )
    ]
  ]

  -- the state of an article for a user: NULLs where there is none
  abbrev pub state_of : World → ℕ → ℕ → Option ArticleState
  state_of w user_id article_id = first_where (is_state_of user_id article_id) w.states

  abbrev flag : (ArticleState → Bool) → Option ArticleState → Bool
  flag f none = false
  flag f (some st) = f st

  abbrev time : (ArticleState → Option ℕ) → Option ArticleState → Option ℕ
  time f none = none
  time f (some st) = f st

  -- one row of `articleQuery`
  abbrev pub joined : Bool → Article → Option ArticleState → ArticleWithState
  joined include_content a st = record {
    id = a.id;
    source_id = a.source_id;
    source_type = a.source_type;
    external_id = a.external_id;
    title = a.title;
    url = a.url;
    original_url = a.original_url;
    author = a.author;
    summary = a.summary;
    content = if include_content then a.content else "";
    published_at = a.published_at;
    created_at = a.created_at;
    updated_at = a.updated_at;
    is_read = flag (λ x. x.is_read) st;
    is_saved = flag (λ x. x.is_saved) st;
    read_at = time (λ x. x.read_at) st;
    saved_at = time (λ x. x.saved_at) st;
  }

  -- the join of `articleQuery`, with "src.deleted_at IS NULL"
  abbrev pub is_visible : World → ℕ → Article → Bool
  is_visible w user_id a = is_some (first_where (is_source_of user_id a) w.sources)

  abbrev is_wanted : Option Bool → Bool → Bool
  is_wanted none b = true
  is_wanted (some true) b = b
  is_wanted (some false) b = not b

  -- `applyArticleFilters`
  unfoldable pub is_filtered : World → ListArticlesRequest → Article → Bool
  is_filtered w p a =
      let st = state_of w p.user_id a.id in
      (leb_ℤ p.source_id (pos 0) || a.source_id == pos_part p.source_id)
      && (str_eq p.query "" || env.is_match (trim_space p.query) a)
      && is_wanted p.is_read (flag (λ x. x.is_read) st)
      && is_wanted p.is_saved (flag (λ x. x.is_saved) st)

  -- "a.published_at DESC NULLS LAST", then "a.created_at DESC"
  abbrev newest_first : Article → Article → Bool
  newest_first a b = elim (a.published_at) [
    | none ↦ not (is_some b.published_at) && leb b.created_at a.created_at
    | some x ↦ elim (b.published_at) [
      | none ↦ true
      | some y ↦ ltb y x || (x == y && leb b.created_at a.created_at)
    ]
  ]

  -- `ListByUser`: two statements; the service has made the limit and the offset natural numbers
  unfoldable pub list_by_user : ListArticlesRequest → Proc World (List ArticleWithState × ℕ)
  list_by_user p = do
    wrapping "count articles by user" (statement env)
    total ← gets (λ w. count_where (λ a. is_visible w p.user_id a && is_filtered w p a) w.articles)
    wrapping "list articles by user" (statement env)
    gets (λ w. (
      map (λ (a : Article). joined false a (state_of w p.user_id a.id))
          (take (pos_part p.limit) (
            drop (pos_part p.offset) (
              order_by newest_first
                (select_where (λ a. is_visible w p.user_id a && is_filtered w p a) w.articles)))),
      total,
    ))

  -- `FindByUserAndID`
  unfoldable pub find_by_user_and_id : ℕ → ℕ → Proc World ArticleWithState
  find_by_user_and_id user_id article_id w = elim (env.fault w.tick) [
    | some e ↦
        if is_error e Sentinel.record_not_found
        then (err (Err.sentinel Sentinel.article_not_found), next_tick w)
        else (err (Err.wrap "find article by user and id" e), next_tick w)
    | none ↦
        elim (first_where (λ a. has_article_id article_id a && is_visible w user_id a) w.articles) [
          | none ↦ (err (Err.sentinel Sentinel.article_not_found), next_tick w)
          | some a ↦ (ok (joined true a (state_of w user_id article_id)), next_tick w)
        ]
  ]

  -- the statement of `UpsertState`, on the unique user and article of a state
  unfoldable pub upsert : UpdateArticleStateRequest → ℕ → Proc World (Unit {0})
  upsert p now w = elim (env.fault w.tick) [
    | some e ↦ (err (Err.wrap "upsert article state" e), next_tick w)
    | none ↦ elim (state_of w p.user_id p.article_id) [
      | some st ↦ (
        ok tt,
        record w {
          tick = suc w.tick;
          states = update_where (is_state_of p.user_id p.article_id) (assigned p now) w.states;
        },
      )
      | none ↦ (
        ok tt,
        record w {
          tick = suc w.tick;
          serial = suc w.serial;
          states = w.states ++ inserted p now w.serial ∷ [];
        },
      )
    ]
  ]

  -- `UpsertState`
  unfoldable pub upsert_state : UpdateArticleStateRequest → ℕ → Proc World ArticleWithState
  upsert_state p now = do
    row ← find_by_user_and_id p.user_id p.article_id
    upsert p now
    find_by_user_and_id p.user_id p.article_id
