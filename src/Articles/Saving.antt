-- ===== src/Articles/Saving.antt =====
-- Saving collected items: what is stored once is not stored again.
use contentflow.Prelude.{
  is_some, ok, first_where, first_where-append, first_where_single, ◌≡◌, refl, Bool, true, false,
  [], ◌∷◌, arith, eq_iff,
}
use contentflow.Articles.Data.{Env, World, Article}
use contentflow.Collection.Data.{CollectedItem}
use contentflow.Articles.Repository.{is_conflict, create_if_not_exists}
use contentflow.Articles.Service.{article_of, to_article, save_item}

-- an article that stands in the way of the item is stored
abbrev pub is_stored : CollectedItem → World → Bool
is_stored item w = is_some (first_where (is_conflict (article_of item 0)) w.articles)

module _ (env : Env) where
  -- An item that is stored stays stored, whatever is saved after it.
  pub save_item-keeps :
      (known item : CollectedItem) (w : World)
      → is_stored known w ≡ true
      → is_stored known (save_item env item w).1 ≡ true
  unfolding save_item to_article create_if_not_exists
  save_item-keeps known item w there = ground (
    arith,
    there,
    first_where-append (is_conflict (article_of known 0)) w.articles
        (record (article_of item (env.clock w.tick)) { id = w.serial } ∷ []),
  )

  pub save_item-stores :
      (item : CollectedItem) (w : World) (created : Bool)
      → (save_item env item w).0 ≡ ok created
      → is_stored item (save_item env item w).1 ≡ true
  unfolding save_item to_article create_if_not_exists
  save_item-stores item w created done =
      let added : Article = record (article_of item (env.clock w.tick)) { id = w.serial } in
      let itself = (eq_iff added.content_hash added.content_hash).1 refl in
      ground (
        arith,
        done,
        itself,
        first_where-append (is_conflict (article_of item 0)) w.articles (added ∷ []),
        first_where_single (is_conflict (article_of item 0)) added,
      )

  pub save_item-known :
      (item : CollectedItem) (w : World) (created : Bool)
      → is_stored item w ≡ true
      → (save_item env item w).0 ≡ ok created
      → (created ≡ false) × ((save_item env item w).1.articles ≡ w.articles)
  unfolding save_item to_article create_if_not_exists
  save_item-known item w created there done = ground (arith, there, done)
