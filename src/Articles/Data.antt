-- ===== src/Articles/Data.antt =====
-- internal/module/article/model.go and dto.go: the rows, the requests and the world.
use contentflow.Prelude.{ℤ, Err, Result, Proc, calling, ok, ℕ, suc, String, Bool, Option, List}

pub record Article : Type 0 where
  pub id : ℕ
  pub source_id : ℕ
  pub source_type : String
  pub external_id : Option String
  pub title : String
  pub url : Option String
  pub original_url : Option String
  pub author : String
  pub summary : String
  pub content : String
  pub content_hash : String
  pub published_at : Option ℕ
  pub created_at : ℕ
  pub updated_at : ℕ

pub record ArticleState : Type 0 where
  pub id : ℕ
  pub user_id : ℕ
  pub article_id : ℕ
  pub is_read : Bool
  pub is_saved : Bool
  pub read_at : Option ℕ
  pub saved_at : Option ℕ
  pub created_at : ℕ
  pub updated_at : ℕ

-- also `ArticleDTO`, which has the same fields
pub record ArticleWithState : Type 0 where
  pub id : ℕ
  pub source_id : ℕ
  pub source_type : String
  pub external_id : Option String
  pub title : String
  pub url : Option String
  pub original_url : Option String
  pub author : String
  pub summary : String
  pub content : String
  pub published_at : Option ℕ
  pub created_at : ℕ
  pub updated_at : ℕ
  pub is_read : Bool
  pub is_saved : Bool
  pub read_at : Option ℕ
  pub saved_at : Option ℕ

-- also `ListArticlesParams`
pub record ListArticlesRequest : Type 0 where
  pub user_id : ℕ
  pub source_id : ℤ
  pub query : String
  pub is_read : Option Bool
  pub is_saved : Option Bool
  pub limit : ℤ
  pub offset : ℤ

pub record ListArticlesResponse : Type 0 where
  pub articles : List ArticleWithState
  pub total : ℕ
  pub limit : ℤ
  pub offset : ℤ

pub record GetArticleRequest : Type 0 where
  pub user_id : ℕ
  pub article_id : ℕ

pub record UpdateArticleStateRequest : Type 0 where
  pub user_id : ℕ
  pub article_id : ℕ
  pub is_read : Option Bool
  pub is_saved : Option Bool

-- What the queries read of a row of the sources.
pub record SourceRow : Type 0 where
  pub id : ℕ
  pub user_id : ℕ
  pub deleted_at : Option ℕ

pub record Env : Type 0 where
  pub fault : ℕ → Option Err
  pub clock : ℕ → ℕ
  -- the text search of PostgreSQL
  pub is_match : String → Article → Bool
  -- the answer of the list cache to the call with the number
  pub cached : ℕ → ListArticlesRequest → Result (Option ListArticlesResponse)

-- `invalidated` and `stored` are the calls of the list cache.
pub record World : Type 0 where
  pub tick : ℕ
  pub serial : ℕ
  pub sources : List SourceRow
  pub articles : List Article
  pub states : List ArticleState
  pub invalidated : List ℤ
  pub stored : List (ListArticlesRequest × ListArticlesResponse)

abbrev pub next_tick : World → World
next_tick w = record w { tick = suc w.tick }

module _ (env : Env) where
  abbrev pub statement : Proc World (Unit {0})
  statement = calling (λ (w : World). w.tick) next_tick env.fault

  abbrev pub read_clock : Proc World ℕ
  read_clock w = (ok (env.clock w.tick), next_tick w)
