-- ===== src/Articles/Service.antt =====
-- internal/module/article/service.go.
use contentflow.Prelude.{
  if◌then◌else◌, ℤ, pos, pos_part, ltb_ℤ, leb_ℤ, eq_ℤ, trim_space, Sentinel, Err, Proc, pure, raise,
  wrapping, modify, ◌>>=◌, ◌>>◌, ok, err, ℕ, suc, String, Bool, true, false, ◌&&◌, not, Option,
  none, some, List, [], ◌∷◌, map, str_eq,
}
use contentflow.Articles.Data.{
  Env, World, Article, ArticleWithState, ListArticlesRequest, ListArticlesResponse,
  GetArticleRequest, next_tick, read_clock, UpdateArticleStateRequest,
}
use contentflow.Collection.Data.{CollectedItem, ArticleWriteResult}
use contentflow.Articles.Repository.{
  create_if_not_exists, list_by_user, find_by_user_and_id, upsert_state,
}

-- `Service`: whether there is a list cache
pub record ArticleService : Type 0 where
  pub has_list_cache : Bool

-- `normalizeOptionalString`
unfoldable pub normalize_optional_string : Option String → Option String
normalize_optional_string none = none
normalize_optional_string (some value) =
    let trimmed = trim_space value in if str_eq trimmed "" then none else some trimmed

-- the checks of `toArticle`
unfoldable pub is_valid_item : CollectedItem → Bool
is_valid_item item =
    ltb_ℤ (pos 0) item.source_id
    && not (str_eq (trim_space item.source_type) "")
    && not (str_eq (trim_space item.title) "")
    && not (str_eq (trim_space item.content_hash) "")

-- the article that `toArticle` makes; the database gives it an id
abbrev pub article_of : CollectedItem → ℕ → Article
article_of item now = record {
  id = 0;
  source_id = pos_part item.source_id;
  source_type = trim_space item.source_type;
  external_id = normalize_optional_string item.external_id;
  title = trim_space item.title;
  url = normalize_optional_string item.url;
  original_url = normalize_optional_string item.original_url;
  author = trim_space item.author;
  summary = trim_space item.summary;
  content = trim_space item.content;
  content_hash = trim_space item.content_hash;
  published_at = item.published_at;
  created_at = now;
  updated_at = now;
}

-- `changedUsers[user] = struct{}{}`
abbrev add_user : ℤ → List ℤ → List ℤ
add_user user [] = user ∷ []
add_user user (u ∷ us) = if eq_ℤ u user then u ∷ us else u ∷ add_user user us

abbrev pub counted : Bool → ArticleWriteResult → ArticleWriteResult
counted true r = record r { inserted_count = suc r.inserted_count }
counted false r = record r { duplicated_count = suc r.duplicated_count }

abbrev pub noted : Bool → CollectedItem → List ℤ → List ℤ
noted created item changed =
    if created && ltb_ℤ (pos 0) item.user_id then add_user item.user_id changed else changed

abbrev pub no_result : ArticleWriteResult
no_result = record { inserted_count = 0; duplicated_count = 0 }

module _ (env : Env) where
  -- `toArticle`
  unfoldable pub to_article : CollectedItem → Proc World Article
  to_article item =
      if not (is_valid_item item)
      then raise (Err.sentinel Sentinel.invalid_collected_item)
      else do now ← read_clock env; pure (article_of item now)

  -- one turn of the loop of `SaveCollectedItems`: whether the item is new
  unfoldable pub save_item : CollectedItem → Proc World Bool
  save_item item = do
    article ← to_article item
    wrapping "save collected item" (create_if_not_exists env article)

  -- the loop of `SaveCollectedItems`, with the counts and the users whose lists changed
  unfoldable pub save_each :
      ArticleWriteResult → List ℤ → List CollectedItem → Proc World (ArticleWriteResult × List ℤ)
  save_each result changed [] = pure (result, changed)
  save_each result changed (item ∷ items) = do
    created ← save_item item
    save_each (counted created result) (noted created item changed) items

-- `toArticleListDTO` and `stripArticleListContent`
abbrev pub without_content : ArticleWithState → ArticleWithState
without_content a = record a { content = "" }

abbrev pub normalize_limit : ℤ → ℤ
normalize_limit limit =
    if leb_ℤ limit (pos 0) then pos 20 else if ltb_ℤ (pos 100) limit then pos 100 else limit

abbrev pub normalize_offset : ℤ → ℤ
normalize_offset offset = if ltb_ℤ offset (pos 0) then pos 0 else offset

module _ (env : Env) (s : ArticleService) where
  -- `deleteUserListCache`, whose error is dropped
  abbrev pub delete_user_list_cache : ℤ → World → World
  delete_user_list_cache user w =
      if s.has_list_cache
      then record w { tick = suc w.tick; invalidated = user ∷ w.invalidated }
      else w

  unfoldable pub delete_each : List ℤ → World → World
  delete_each [] w = w
  delete_each (u ∷ us) w = delete_each us (delete_user_list_cache u w)

  -- `SaveCollectedItems`; a map has no order, and here its users stand in the order of their items
  unfoldable pub save_collected_items : List CollectedItem → Proc World ArticleWriteResult
  save_collected_items items = do
    saved ← save_each env no_result [] items
    modify (delete_each saved.1)
    pure saved.0

  -- the rest of `ListArticles` when the cache has no answer
  unfoldable pub list_stored : ListArticlesRequest → Proc World ListArticlesResponse
  list_stored req = do
    page ← wrapping "list articles" (list_by_user env req)
    let resp : ListArticlesResponse = record {
      articles = map without_content page.0;
      total = page.1;
      limit = req.limit;
      offset = req.offset;
    }
    (if s.has_list_cache
        then modify (λ w. record w { tick = suc w.tick; stored = (req, resp) ∷ w.stored })
        else pure tt)
    pure resp

  -- `ListArticles`
  unfoldable pub list_articles : ListArticlesRequest → Proc World ListArticlesResponse
  list_articles given w =
      let req : ListArticlesRequest = record given {
        query = trim_space given.query;
        limit = normalize_limit given.limit;
        offset = normalize_offset given.offset;
      } in
      if s.has_list_cache
      then elim (env.cached w.tick req) [
        | err e ↦ list_stored req (next_tick w)
        | ok hit ↦ elim hit [
          | none ↦ list_stored req (next_tick w)
          | some resp ↦
              (ok (record resp { articles = map without_content resp.articles }), next_tick w)
        ]
      ]
      else list_stored req w

  -- `GetArticle`
  unfoldable pub get_article : GetArticleRequest → Proc World ArticleWithState
  get_article req = find_by_user_and_id env req.user_id req.article_id

  -- `UpdateState`
  unfoldable pub update_state : UpdateArticleStateRequest → Proc World ArticleWithState
  update_state req = do
    now ← read_clock env
    row ← upsert_state env req now
    modify (delete_user_list_cache (pos req.user_id))
    pure row
