-- ===== src/Articles/Marks.antt =====
-- What a user marks as read or saved.
use contentflow.Prelude.{
  Option-cases, Result-cases, ok, first_where-update_where, first_where_hit, first_where-append,
  first_where_single, ℕ, ◌≡◌, sym, inl, inr, Bool, true, false, Option, none, some, [], ◌∷◌, arith,
}
use mathlib.Core.Path.{subst}
use contentflow.Articles.Data.{
  Env, World, ArticleState, UpdateArticleStateRequest, ArticleWithState, next_tick,
}
use contentflow.Articles.Repository.{
  upsert, assigned, inserted, state_of, is_state_of, find_by_user_and_id, upsert_state,
}
use contentflow.Articles.Service.{ArticleService, get_article, update_state}

-- the flag after an update
abbrev pub flag_after : Option Bool → Bool → Bool
flag_after none before = before
flag_after (some b) before = b

abbrev pub flag_of : (ArticleState → Bool) → Option ArticleState → Bool
flag_of f none = false
flag_of f (some st) = f st

module _ (env : Env) where
  assigned-own :
      (p : UpdateArticleStateRequest) (now user_id article_id : ℕ) (st : ArticleState)
      → is_state_of user_id article_id (assigned p now st) ≡ is_state_of user_id article_id st
  assigned-own p now user_id article_id st = ground arith

  inserted-own :
      (p : UpdateArticleStateRequest) (now id : ℕ)
      → is_state_of p.user_id p.article_id (inserted p now id) ≡ true
  inserted-own p now id = ground arith

  -- the state of the article after the upsert
  upsert-state_of :
      (p : UpdateArticleStateRequest) (now : ℕ) (w : World)
      → (upsert env p now w).0 ≡ ok tt
      → (st : ArticleState) × (state_of env (upsert env p now w).1 p.user_id p.article_id ≡ some st)
        × (st.is_read
            ≡ flag_after p.is_read
                (flag_of (λ x. x.is_read) (state_of env w p.user_id p.article_id)))
        × (st.is_saved
            ≡ flag_after p.is_saved
                (flag_of (λ x. x.is_saved) (state_of env w p.user_id p.article_id)))
  unfolding upsert
  upsert-state_of p now w done = elim (Option-cases (env.fault w.tick)) [
    | inr (e, bad) ↦ absurd (ground arith)
    | inl quiet ↦ elim (Option-cases (state_of env w p.user_id p.article_id)) [
      | inl new ↦ (
        inserted p now w.serial,
        ground (
          arith,
          quiet,
          new,
          first_where-append (is_state_of p.user_id p.article_id) w.states
              (inserted p now w.serial ∷ []),
          first_where_single (is_state_of p.user_id p.article_id) (inserted p now w.serial)
              (inserted-own p now w.serial),
        ),
        ground (arith, new),
        ground (arith, new),
      )
      | inr (st, old) ↦ (
        assigned p now st,
        ground (
          arith,
          quiet,
          old,
          first_where_hit (is_state_of p.user_id p.article_id) w.states st old,
          first_where-update_where (is_state_of p.user_id p.article_id)
              (is_state_of p.user_id p.article_id) (assigned p now) w.states
              (assigned-own p now p.user_id p.article_id),
        ),
        ground (arith, old),
        ground (arith, old),
      )
    ]
  ]

  -- what a search shows of the state, and that it writes nothing
  found-flags :
      (user_id article_id : ℕ) (w : World) (row : ArticleWithState)
      → (find_by_user_and_id env user_id article_id w).0 ≡ ok row
      → (row.is_read ≡ flag_of (λ x. x.is_read) (state_of env w user_id article_id))
        × (row.is_saved ≡ flag_of (λ x. x.is_saved) (state_of env w user_id article_id))
        × ((find_by_user_and_id env user_id article_id w).1 ≡ next_tick w)
  unfolding find_by_user_and_id
  found-flags user_id article_id w row done = (ground arith, ground arith, ground arith)

  found_again :
      (user_id article_id : ℕ) (w later : World) (row : ArticleWithState)
      → env.fault later.tick ≡ none
      → later.sources ≡ w.sources
      → later.articles ≡ w.articles
      → later.states ≡ w.states
      → (find_by_user_and_id env user_id article_id w).0 ≡ ok row
      → (find_by_user_and_id env user_id article_id later).0 ≡ ok row
  unfolding find_by_user_and_id
  found_again user_id article_id w later row quiet sources articles states done =
      let moved : World = record later {
        sources = w.sources;
        articles = w.articles;
        states = w.states;
      } in
      let same : moved ≡ later = λ i. record later {
        sources = sym sources i;
        articles = sym articles i;
        states = sym states i;
      } in
      subst (λ v. (find_by_user_and_id env user_id article_id v).0 ≡ ok row) same
        (ground (arith, quiet, done))

  -- `UpsertState` marks what it is told and shows what is then stored.
  upsert_state-shown :
      (p : UpdateArticleStateRequest) (now : ℕ) (w : World) (shown : ArticleWithState)
      → (upsert_state env p now w).0 ≡ ok shown
      → (before : World) × (before.states ≡ (upsert_state env p now w).1.states)
        × (before.sources ≡ (upsert_state env p now w).1.sources)
        × (before.articles ≡ (upsert_state env p now w).1.articles)
        × ((find_by_user_and_id env p.user_id p.article_id before).0 ≡ ok shown)
        × (shown.is_read
            ≡ flag_after p.is_read
                (flag_of (λ x. x.is_read) (state_of env w p.user_id p.article_id)))
        × (shown.is_saved
            ≡ flag_after p.is_saved
                (flag_of (λ x. x.is_saved) (state_of env w p.user_id p.article_id)))
  unfolding upsert_state
  upsert_state-shown p now w shown done =
      elim (Result-cases (find_by_user_and_id env p.user_id p.article_id w).0) [
        | inr (e, bad) ↦ absurd (ground arith)
        | inl (row, found) ↦
            let (r, s, after) = found-flags p.user_id p.article_id w row found in
            let w2 = next_tick w in
            elim (Result-cases (upsert env p now w2).0) [
              | inr (e, bad) ↦ absurd (ground (arith, done, found, after, bad))
              | inl (u, written) ↦
                  let w3 = (upsert env p now w2).1 in
                  let again : (find_by_user_and_id env p.user_id p.article_id w3).0 ≡ ok shown =
                    ground (arith, done, found, after, written) in
                  let (st, there, read, saved) = upsert-state_of p now w2 written in
                  let (shown_read, shown_saved, last) =
                    found-flags p.user_id p.article_id w3 shown again in
                  (
                    w3,
                    ground (arith, found, after, written, last),
                    ground (arith, found, after, written, last),
                    ground (arith, found, after, written, last),
                    again,
                    ground (arith, shown_read, there, read),
                    ground (arith, shown_saved, there, saved),
                  )
            ]
      ]

-- After an update of the state of an article that succeeded, the answer shows the flags that were
-- given and leaves the others as they were, and reading the article gives the same answer. It is
-- assumed that the database does not fail.
pub update_state-shown :
    (env : Env) (s : ArticleService) (req : UpdateArticleStateRequest) (w : World)
    (shown : ArticleWithState)
    → ((n : ℕ) → env.fault n ≡ none)
    → (update_state env s req w).0 ≡ ok shown
    → (shown.is_read
        ≡ flag_after req.is_read
            (flag_of (λ x. x.is_read) (state_of env w req.user_id req.article_id)))
      × (shown.is_saved
          ≡ flag_after req.is_saved
              (flag_of (λ x. x.is_saved) (state_of env w req.user_id req.article_id)))
      × ((get_article env s
            (record { user_id = req.user_id; article_id = req.article_id })
            (update_state env s req w).1).0
          ≡ ok shown)
unfolding update_state get_article
update_state-shown env s req w shown quiet done =
    let now = env.clock w.tick in
    let w1 = next_tick w in
    let stored : (upsert_state env req now w1).0 ≡ ok shown = ground arith in
    let (before, states, sources, articles, found, read, saved) =
      upsert_state-shown env req now w1 shown stored in
    let after = (update_state env s req w).1 in
    (
      read,
      saved,
      found_again env req.user_id req.article_id before after shown (quiet after.tick)
          (ground (arith, stored, sources)) (ground (arith, stored, articles))
          (ground (arith, stored, states)) found,
    )
