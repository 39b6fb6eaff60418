-- ===== src/Articles/Once.antt =====
-- What `SaveCollectedItems` promises.
use contentflow.Prelude.{
  ℤ, Result-cases, ok, length, All-mono, ◌+◌, ◌≡◌, refl, ◌∙◌, inl, inr, true, List, [], ◌∷◌, arith,
}
use contentflow.Articles.Data.{Env, World}
use contentflow.Collection.Data.{CollectedItem, ArticleWriteResult}
use contentflow.Articles.Service.{
  ArticleService, no_result, save_each, delete_user_list_cache, delete_each, save_collected_items,
}
use contentflow.Articles.Saving.{is_stored}
use contentflow.Articles.Batches.{
  save_each-keeps, save_each-stores, save_each-known, save_each-counts,
}

module _ (env : Env) (s : ArticleService) where
  -- dropping cached lists changes no table
  delete_each-tables :
      (us : List ℤ) (w : World)
      → ((delete_each env s us w).articles ≡ w.articles)
        × ((delete_each env s us w).serial ≡ w.serial)
  unfolding delete_each
  delete_each-tables [] w = (refl, refl)
  delete_each-tables (u ∷ us) w =
      let rest = delete_each-tables us (delete_user_list_cache env s u w) in
      (rest.0 ∙ ground arith, rest.1 ∙ ground arith)

  -- a batch leaves the tables as its loop does
  save-tables :
      (items : List CollectedItem) (w : World)
      → ((save_collected_items env s items w).1.articles
          ≡ (save_each env no_result [] items w).1.articles)
        × ((save_collected_items env s items w).1.serial
            ≡ (save_each env no_result [] items w).1.serial)
  unfolding save_collected_items
  save-tables items w = elim (Result-cases (save_each env no_result [] items w).0) [
    | inr (e, bad) ↦ (ground (arith, bad), ground (arith, bad))
    | inl (saved, done) ↦
        let after = delete_each-tables saved.1 (save_each env no_result [] items w).1 in
        (ground (arith, done, after.0), ground (arith, done, after.1))
  ]

  save-result :
      (items : List CollectedItem) (w : World) (r : ArticleWriteResult)
      → (save_collected_items env s items w).0 ≡ ok r
      → (us : List ℤ) × ((save_each env no_result [] items w).0 ≡ ok (r, us))
  unfolding save_collected_items
  save-result items w r done = elim (Result-cases (save_each env no_result [] items w).0) [
    | inr (e, bad) ↦ absurd (ground arith)
    | inl (saved, good) ↦ (saved.1, ground arith)
  ]

  -- batches of any items, one after another, each with its own outcome
  unfoldable pub save_batches : List (List CollectedItem) → World → World
  save_batches [] w = w
  save_batches (items ∷ batches) w = save_batches batches (save_collected_items env s items w).1

  save_batches-keeps :
      (known : CollectedItem) (batches : List (List CollectedItem)) (w : World)
      → is_stored known w ≡ true
      → is_stored known (save_batches batches w) ≡ true
  unfolding save_batches
  save_batches-keeps known [] w there = there
  save_batches-keeps known (items ∷ batches) w there =
      save_batches-keeps known batches (save_collected_items env s items w).1
        (ground (arith, save-tables items w, save_each-keeps env known no_result [] items w there))

  -- When a batch was saved and any other batches after it, the same items saved again add no article
  -- and are all counted as duplicates.
  pub save_collected_items-once :
      (items : List CollectedItem) (batches : List (List CollectedItem)) (w : World)
      (first again : ArticleWriteResult)
      → (save_collected_items env s items w).0 ≡ ok first
      → (save_collected_items env s items
          (save_batches batches (save_collected_items env s items w).1)).0
        ≡ ok again
      → (again.inserted_count ≡ 0)
        × (again.duplicated_count ≡ length items)
        × ((save_collected_items env s items
              (save_batches batches (save_collected_items env s items w).1)).1.articles
            ≡ (save_batches batches (save_collected_items env s items w).1).articles)
  save_collected_items-once items batches w first again done repeated =
      let w' = (save_collected_items env s items w).1 in
      let later = save_batches batches w' in
      let (us, looped) = save-result items w first done in
      let there =
        All-mono (λ x at. save_batches-keeps x batches w' (ground (arith, at, save-tables items w)))
          items (save_each-stores env no_result [] items w (ground (arith, looped))) in
      let (us', looped') = save-result items later again repeated in
      let (inserted, duplicated, kept) =
        save_each-known env no_result again [] us' items later there looped' in
      (inserted, omega (arith, duplicated), (save-tables items later).0 ∙ kept)

  -- The counts of a saved batch add up to its length, and the number of articles grows by the count
  -- of inserted ones.
  pub save_collected_items-counts :
      (items : List CollectedItem) (w : World) (r : ArticleWriteResult)
      → (save_collected_items env s items w).0 ≡ ok r
      → (r.inserted_count + r.duplicated_count ≡ length items)
        × (length (save_collected_items env s items w).1.articles
            ≡ length w.articles + r.inserted_count)
  save_collected_items-counts items w r done =
      let (us, looped) = save-result items w r done in
      let (total, grown) = save_each-counts env no_result r [] us items w looped in
      (omega (arith, total), ground (arith, grown, save-tables items w))
