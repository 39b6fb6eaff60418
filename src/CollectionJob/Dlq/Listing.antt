-- ===== src/CollectionJob/Dlq/Listing.antt =====
-- What a page of dead letters holds.
use contentflow.Prelude.{
  ℤ, pos, ◌≤ℤ◌, Result-cases, ok, length, take, drop, select_where, order_by, All, All_of, All-mono,
  All-select_where, All-order_by, All-take, ℕ, zero, suc, ◌≤◌, ◌≡◌, refl, ap, inl, inr, Bool, true,
  ◌&&◌, Option, List, [], ◌∷◌, map, arith,
}
use contentflow.CollectionJob.Env.{Env, DlqItemModel, DlqStatus, World}
use contentflow.CollectionJob.Dlq.{
  DlqItem, is_of_user, has_status, normalize_limit, normalize_offset, to_items, is_newer, to_item,
  list,
}
use contentflow.CollectionJob.Dlq.Service.{
  DlqItemDto, to_dlq_item_dto, ListDlqItemsResponse, list_items,
}

-- The page size lies between 1 and 100: 20 for a request that is not positive.
pub page_bounds : (limit : ℤ) → (1 ≤ normalize_limit limit) × (normalize_limit limit ≤ 100)
unfolding normalize_limit
page_bounds limit = ground arith

page_again : (limit : ℤ) → normalize_limit (pos (normalize_limit limit)) ≡ normalize_limit limit
unfolding normalize_limit
page_again limit = ground arith

length-take-le : (n : ℕ) (ms : List DlqItemModel) → length (take n ms) ≤ n
length-take-le zero ms = omega arith
length-take-le (suc n) [] = omega arith
length-take-le (suc n) (m ∷ ms) = omega (arith, length-take-le n ms)

to_items-cons :
    (env : Env) (m : DlqItemModel) (ms : List DlqItemModel) (i : DlqItem) (is : List DlqItem)
    → to_items env (m ∷ ms) ≡ ok (i ∷ is)
    → (to_item env m ≡ ok i) × (to_items env ms ≡ ok is)
unfolding to_items
to_items-cons env m ms i is h = ground arith

to_items-nil :
    (env : Env) (m : DlqItemModel) (ms : List DlqItemModel) → ¬ (to_items env (m ∷ ms) ≡ ok [])
unfolding to_items
to_items-nil env m ms h = ground arith

-- an item of a row that was asked for
to_item-own :
    (env : Env) (user_id : ℤ) (status : Option DlqStatus) (m : DlqItemModel) (i : DlqItem)
    → to_item env m ≡ ok i
    → (is_of_user user_id m && has_status status m) ≡ true
    → pos 1 ≤ℤ user_id
    → i.user_id ≡ user_id
to_item-own env user_id status m i h a some_user = ground arith

abbrev pub IsOwn : ℤ → DlqItemDto → Type 0
IsOwn user_id dto = pos 1 ≤ℤ user_id → dto.user_id ≡ user_id

-- What was converted comes from the rows, in their order.
to_items_lem :
    (env : Env) (user_id : ℤ) (status : Option DlqStatus) (ms : List DlqItemModel)
    (items : List DlqItem)
    → to_items env ms ≡ ok items
    → All (λ m. (is_of_user user_id m && has_status status m) ≡ true) ms
    → All (IsOwn user_id) (map to_dlq_item_dto items)
      × (length (map to_dlq_item_dto items) ≡ length ms)
unfolding to_items
to_items_lem env user_id status [] [] h a = (tt, refl)
to_items_lem env user_id status [] (i ∷ is) h a = cc
to_items_lem env user_id status (m ∷ ms) [] h a = absurd (to_items-nil env m ms h)
to_items_lem env user_id status (m ∷ ms) (i ∷ is) h a =
    let (first, rest) = to_items-cons env m ms i is h in
    let (own, size) = to_items_lem env user_id status ms is rest a.1 in
    ((to_item-own env user_id status m i first a.0, own), ap suc size)

All-drop :
    (P : DlqItemModel → Type 0) (n : ℕ) (ms : List DlqItemModel) → All P ms → All P (drop n ms)
All-drop P zero ms h = h
All-drop P (suc n) [] h = tt
All-drop P (suc n) (m ∷ ms) h = All-drop P n ms h.1

-- the rows of a page
abbrev asked : ℤ → Option DlqStatus → DlqItemModel → Bool
asked user_id status m = is_of_user user_id m && has_status status m

page : ℤ → Option DlqStatus → ℕ → ℕ → List DlqItemModel → List DlqItemModel
page user_id status limit offset ms =
    take limit (drop offset (order_by is_newer (select_where (asked user_id status) ms)))

page-asked :
    (user_id : ℤ) (status : Option DlqStatus) (limit offset : ℕ) (ms : List DlqItemModel)
    → All (λ m. asked user_id status m ≡ true) (page user_id status limit offset ms)
unfolding page
page-asked user_id status limit offset ms = All-take _ limit _ (
    All-drop _ offset _ (
      All-order_by _ is_newer _ (
        All-mono {P = λ m. Unit {0} × (asked user_id status m ≡ true)} (λ m both. both.1) _
          (All-select_where (λ m. Unit {0}) (asked user_id status) ms (All_of (λ m. tt) ms)))))

length-page :
    (user_id : ℤ) (status : Option DlqStatus) (limit offset : ℕ) (ms : List DlqItemModel)
    → length (page user_id status limit offset ms) ≤ limit
unfolding page
length-page user_id status limit offset ms = length-take-le limit _

-- A listing that succeeds has converted the rows of its page.
list_items_lem :
    (env : Env) (user_id : ℤ) (status : Option DlqStatus) (limit offset : ℤ) (w : World)
    (resp : ListDlqItemsResponse)
    → (list_items env user_id status limit offset w).0 ≡ ok resp
    → (items : List DlqItem) × (to_items env (
          page user_id status
            (normalize_limit (pos (normalize_limit limit)))
            (normalize_offset (pos (normalize_offset offset)))
            w.dlq_items)
        ≡ ok items)
      × (resp.items ≡ map to_dlq_item_dto items)
      × (resp.limit ≡ normalize_limit limit)
unfolding list_items list page
list_items_lem env user_id status limit offset w resp h =
    elim (Result-cases (
      to_items env (
        page user_id status (normalize_limit (pos (normalize_limit limit)))
          (normalize_offset (pos (normalize_offset offset))) w.dlq_items))) [
            | inl (items, done) ↦ (items, done, ground arith, ground arith)
            | inr (e, failed) ↦ absurd (ground arith)
          ]

-- A page that is returned says its limit, between 1 and 100, holds no more items than that, and if a
-- user is named holds that user's items alone.
pub list_items-IsOwn :
    (env : Env) (user_id : ℤ) (status : Option DlqStatus) (limit offset : ℤ) (w : World)
    (resp : ListDlqItemsResponse)
    → (list_items env user_id status limit offset w).0 ≡ ok resp
    → (length resp.items ≤ resp.limit)
      × (1 ≤ resp.limit)
      × (resp.limit ≤ 100)
      × All (IsOwn user_id) resp.items
list_items-IsOwn env user_id status limit offset w resp h =
    let (items, done, shown, size) = list_items_lem env user_id status limit offset w resp h in
    let few =
      length-page user_id status (normalize_limit (pos (normalize_limit limit)))
        (normalize_offset (pos (normalize_offset offset))) w.dlq_items in
    let (low, high) = page_bounds limit in
    let again = page_again limit in
    let (own, same) =
      to_items_lem env user_id status
        (page user_id status (normalize_limit (pos (normalize_limit limit)))
          (normalize_offset (pos (normalize_offset offset))) w.dlq_items)
        items done
        (page-asked user_id status (normalize_limit (pos (normalize_limit limit)))
          (normalize_offset (pos (normalize_offset offset))) w.dlq_items) in
    (grind arith, grind arith, grind arith, rw shown own)
