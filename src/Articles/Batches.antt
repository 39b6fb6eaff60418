-- ===== src/Articles/Batches.antt =====
-- Saving batches of collected items, one after another.
use contentflow.Prelude.{
  if◌then◌else◌, Bool-cases, ℤ, Err, Result, is_ok, Result-cases, ok, err, length, All, All-mono,
  suc, ◌+◌, ◌≡◌, refl, sym, ap, ◌∙◌, inl, inr, Bool, true, List, [], ◌∷◌, ◌++◌, arith,
}
use mathlib.Core.Path.{subst}
use contentflow.Articles.Data.{Env, World, Article}
use contentflow.Collection.Data.{CollectedItem, ArticleWriteResult}
use contentflow.Articles.Repository.{create_if_not_exists, inserted}
use contentflow.Articles.Service.{counted, noted, save_item, save_each, article_of, to_article}
use contentflow.Articles.Saving.{is_stored, save_item-keeps, save_item-stores, save_item-known}

module _ (env : Env) where
  -- one turn of the loop
  save_each-failed :
      (r : ArticleWriteResult) (us : List ℤ) (item : CollectedItem) (items : List CollectedItem)
      (w : World) (e : Err)
      → (save_item env item w).0 ≡ err e
      → save_each env r us (item ∷ items) w ≡ (err e, (save_item env item w).1)
  unfolding save_each
  save_each-failed r us item items w e bad = ground arith

  save_each-saved :
      (r : ArticleWriteResult) (us : List ℤ) (item : CollectedItem) (items : List CollectedItem)
      (w : World) (created : Bool)
      → (save_item env item w).0 ≡ ok created
      → save_each env r us (item ∷ items) w
        ≡ save_each env (counted created r) (noted created item us) items (save_item env item w).1
  unfolding save_each
  save_each-saved r us item items w created done = ground arith

  pub save_each-keeps :
      (known : CollectedItem) (r : ArticleWriteResult) (us : List ℤ) (items : List CollectedItem)
      (w : World)
      → is_stored known w ≡ true
      → is_stored known (save_each env r us items w).1 ≡ true
  unfolding save_each
  save_each-keeps known r us [] w there = there
  save_each-keeps known r us (item ∷ items) w there =
      let still = save_item-keeps env known item w there in
      elim (Result-cases (save_item env item w).0) [
        | inr (e, bad) ↦ rw (save_each-failed r us item items w e bad) still
        | inl (created, done) ↦ rw (save_each-saved r us item items w created done) (
            save_each-keeps known (counted created r) (noted created item us) items
              (save_item env item w).1 still)
      ]

  pub save_each-stores :
      (r : ArticleWriteResult) (us : List ℤ) (items : List CollectedItem) (w : World)
      → is_ok (save_each env r us items w).0 ≡ true
      → All (λ item. is_stored item (save_each env r us items w).1 ≡ true) items
  unfolding save_each
  save_each-stores r us [] w done = tt
  save_each-stores r us (item ∷ items) w done = elim (Result-cases (save_item env item w).0) [
    | inr (e, bad) ↦ absurd (ground (arith, save_each-failed r us item items w e bad))
    | inl (created, saved) ↦
        let w' = (save_item env item w).1 in
        let r' = counted created r in
        let us' = noted created item us in
        let turn = save_each-saved r us item items w created saved in
        let here : All (λ x. is_stored x (save_each env r' us' items w').1 ≡ true) (item ∷ items) =
          (
            save_each-keeps item r' us' items w' (save_item-stores env item w created saved),
            save_each-stores r' us' items w' (ground (arith, turn, done)),
          ) in
        subst (λ p. All (λ x. is_stored x p.1 ≡ true) (item ∷ items)) (sym turn) here
  ]

  -- Items that are all stored are counted as duplicates, and nothing is written.
  pub save_each-known :
      (r r' : ArticleWriteResult) (us us' : List ℤ) (items : List CollectedItem) (w : World)
      → All (λ item. is_stored item w ≡ true) items
      → (save_each env r us items w).0 ≡ ok (r', us')
      → (r'.inserted_count ≡ r.inserted_count)
        × (r'.duplicated_count ≡ r.duplicated_count + length items)
        × ((save_each env r us items w).1.articles ≡ w.articles)
  unfolding save_each
  save_each-known r r' us us' [] w there done = (ground arith, ground arith, refl)
  save_each-known r r' us us' (item ∷ items) w there done =
      elim (Result-cases (save_item env item w).0) [
        | inr (e, bad) ↦ absurd (ground (arith, save_each-failed r us item items w e bad, done))
        | inl (created, saved) ↦
            let w' = (save_item env item w).1 in
            let turn = save_each-saved r us item items w created saved in
            let (old, same) = save_item-known env item w created there.0 saved in
            let (inserted, duplicated, kept) =
              save_each-known (counted created r) r' (noted created item us) us' items w'
                (All-mono (λ x at. save_item-keeps env x item w at) items there.1)
                (sym (ap (λ p. p.0) turn) ∙ done) in
            (
              ground (arith, inserted, old),
              ground (arith, duplicated, old),
              ap (λ (p : Result (ArticleWriteResult × List ℤ) × World). p.1.articles) turn
                  ∙ kept
                  ∙ same,
            )
      ]

  length-append_one : (xs : List Article) (a : Article) → length (xs ++ a ∷ []) ≡ suc (length xs)
  length-append_one [] a = refl
  length-append_one (x ∷ xs) a = ap (λ n. suc n) (length-append_one xs a)

  save_item-counts :
      (item : CollectedItem) (w : World) (created : Bool)
      → (save_item env item w).0 ≡ ok created
      → length (save_item env item w).1.articles
        ≡ (if created then suc (length w.articles) else length w.articles)
  unfolding save_item to_article create_if_not_exists
  save_item-counts item w created done = ground (
    arith,
    done,
    length-append_one w.articles (record (article_of item (env.clock w.tick)) { id = w.serial }),
  )

  pub save_each-counts :
      (r r' : ArticleWriteResult) (us us' : List ℤ) (items : List CollectedItem) (w : World)
      → (save_each env r us items w).0 ≡ ok (r', us')
      → (r'.inserted_count + r'.duplicated_count
          ≡ r.inserted_count + r.duplicated_count + length items)
        × (length (save_each env r us items w).1.articles + r.inserted_count
            ≡ length w.articles + r'.inserted_count)
  unfolding save_each
  save_each-counts r r' us us' [] w done = (ground arith, ground arith)
  save_each-counts r r' us us' (item ∷ items) w done =
      elim (Result-cases (save_item env item w).0) [
        | inr (e, bad) ↦ absurd (ground (arith, save_each-failed r us item items w e bad, done))
        | inl (created, saved) ↦
            let w' = (save_item env item w).1 in
            let turn = save_each-saved r us item items w created saved in
            let one = save_item-counts item w created saved in
            let (total, grown) =
              save_each-counts (counted created r) r' (noted created item us) us' items w'
                (sym (ap (λ p. p.0) turn) ∙ done) in
            let rows =
              ap (λ (p : Result (ArticleWriteResult × List ℤ) × World). length p.1.articles) turn in
            elim (Bool-cases created) [
              | inl new ↦ (ground (arith, new, total), ground (arith, new, grown, one, rows))
              | inr old ↦ (ground (arith, old, total), ground (arith, old, grown, one, rows))
            ]
      ]
