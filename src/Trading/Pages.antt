-- ===== src/Trading/Pages.antt =====
-- The pages of a user's orders (backend/app/services/trading.py, lines 404 to 436).
use crypto_exchange_pro.Prelude.{
  ℕ, ◌+◌, ◌≤◌, ◌≡◌, refl, sym, true, List, ◌++◌, ◌↔◌, Bool, page, All, All-mono, All-page,
  All-select, length, length-page, page-append, select,
}
use crypto_exchange_pro.Models.{Order}
use crypto_exchange_pro.Session.{Db, ok}
use crypto_exchange_pro.Trading.Listing.{OrderQuery, is_listed, list_orders}
use crypto_exchange_pro.Trading.Matching.{Matches, is_listed_iff}

-- A page of orders is the part at the given offset, newest first, of exactly those orders that match: each
-- of the user, on a known pair, with the status, the pair's symbol, the side, the type and the times that the
-- query gives, where an empty symbol gives nothing. It has at most as many orders as were asked for, and
-- followed by the next page, of any size, it is the longer page that starts where it does.
pub list_orders_lem :
    (user_id limit more offset : ℕ) (q : OrderQuery) (db : Db)
    → (os next both : List Order) × ((list_orders user_id limit offset q db).0 ≡ ok os)
      × ((list_orders user_id more (offset + limit) q db).0 ≡ ok next)
      × ((list_orders user_id (limit + more) offset q db).0 ≡ ok both)
      × ((keep : Order → Bool) × ((o : Order) → (keep o ≡ true) ↔ Matches user_id q db.pairs o)
          × (os ≡ page limit offset (select keep db.orders)))
      × (length os ≤ limit)
      × All (Matches user_id q db.pairs) os
      × (both ≡ os ++ next)
unfolding list_orders
list_orders_lem user_id limit more offset q db =
    let keep = is_listed user_id q db.pairs in
    let rows = select keep db.orders in
    (
      page limit offset rows,
      page more (offset + limit) rows,
      page (limit + more) offset rows,
      refl,
      refl,
      refl,
      (keep, is_listed_iff user_id q db.pairs, refl),
      length-page limit offset rows,
      All-mono _ _ (page limit offset rows) (λ o. (is_listed_iff user_id q db.pairs o).0)
          (All-page _ limit offset rows (All-select keep db.orders)),
      sym (page-append limit more offset rows),
    )
