-- ===== src/Articles/Tests.antt =====
-- A small world of articles, and the theorems about the articles at work in it.
use contentflow.Prelude.{
  pos, trim_space, ok, length, first_where, ℕ, ◌+◌, ◌≡◌, refl, true, false, none, some, List, [],
  ◌∷◌,
}
use contentflow.Articles.Data.{Env, World, ArticleWithState, UpdateArticleStateRequest}
use contentflow.Collection.Data.{CollectedItem, ArticleWriteResult}
use contentflow.Articles.Repository.{
  inserted, create_if_not_exists, find_by_user_and_id, upsert, upsert_state,
}
use contentflow.Articles.Service.{
  ArticleService, save_collected_items, get_article, update_state, normalize_optional_string,
  is_valid_item, to_article, save_item, save_each, delete_each,
}
use contentflow.Articles.Once.{save_batches, save_collected_items-once, save_collected_items-counts}
use contentflow.Articles.Marks.{update_state-shown}

abbrev calm : Env
calm = record {
  fault = λ n. none;
  clock = λ n. 1000 + n;
  is_match = λ query a. true;
  cached = λ n req. ok none;
}

abbrev service : ArticleService
service = record { has_list_cache = true }

abbrev world : World
world = record {
  tick = 0;
  serial = 1;
  sources = record { id = 7; user_id = 5; deleted_at = none } ∷ [];
  articles = [];
  states = [];
  invalidated = [];
  stored = [];
}

abbrev first_item : CollectedItem
first_item = record {
  user_id = pos 5;
  source_id = pos 7;
  source_type = "rss";
  external_id = some "guid-1";
  title = " News";
  url = none;
  original_url = none;
  author = "";
  summary = "";
  content = "text";
  content_hash = "aa";
  published_at = none;
}

-- another id, the same text
abbrev second_item : CollectedItem
second_item = record first_item { external_id = some "guid-2" }

abbrev third_item : CollectedItem
third_item = record second_item { content_hash = "bb" }

abbrev items : List CollectedItem
items = first_item ∷ second_item ∷ []

abbrev result : ℕ → ℕ → ArticleWriteResult
result inserted duplicated = record { inserted_count = inserted; duplicated_count = duplicated }

abbrev batches : List (List CollectedItem)
batches = (third_item ∷ []) ∷ []

save_collected_items-counts_example :
    ((result 1 1).inserted_count + (result 1 1).duplicated_count ≡ 2)
    × (length (save_collected_items calm service items world).1.articles ≡ 1)
unfolding save_collected_items save_each save_item to_article is_valid_item trim_space
    create_if_not_exists first_where normalize_optional_string
save_collected_items-counts_example =
    save_collected_items-counts calm service items world (result 1 1) refl

save_collected_items-once_example :
    ((result 0 2).inserted_count ≡ 0)
    × ((result 0 2).duplicated_count ≡ 2)
    × ((save_collected_items calm service items (
          save_batches calm service batches
            (save_collected_items calm service items world).1)).1.articles
        ≡ (save_batches calm service batches
            (save_collected_items calm service items world).1).articles)
unfolding save_collected_items save_batches delete_each save_each save_item to_article is_valid_item
    trim_space create_if_not_exists first_where normalize_optional_string
save_collected_items-once_example =
    save_collected_items-once calm service items batches world (result 1 1) (result 0 2) refl refl

abbrev filled : World
filled = (save_collected_items calm service items world).1

abbrev marking : UpdateArticleStateRequest
marking = record { user_id = 5; article_id = 1; is_read = some true; is_saved = none }

abbrev marked : ArticleWithState
marked = record {
  id = 1;
  source_id = 7;
  source_type = "rss";
  external_id = some "guid-1";
  title = "News";
  url = none;
  original_url = none;
  author = "";
  summary = "";
  content = "text";
  published_at = none;
  created_at = 1000;
  updated_at = 1000;
  is_read = true;
  is_saved = false;
  read_at = some 1005;
  saved_at = none;
}

update_state-shown_example :
    (marked.is_read ≡ true)
    × (marked.is_saved ≡ false)
    × ((get_article calm service
          (record { user_id = 5; article_id = 1 })
          (update_state calm service marking filled).1).0
        ≡ ok marked)
unfolding update_state upsert_state find_by_user_and_id upsert delete_each save_collected_items
    save_each save_item to_article is_valid_item trim_space create_if_not_exists first_where
    normalize_optional_string
update_state-shown_example = update_state-shown calm service marking filled marked (λ n. refl) refl
