-- ===== src/Solvency/RoundTrip.antt =====
-- An order that is placed and cancelled (backend/app/services/trading.py, lines 275 to 287 and 378
-- to 401).
use crypto_exchange_pro.Prelude.{
  ℕ, ◌+◌, ◌≡◌, refl, sym, ap, subst, ◌∙◌, false, some, List, [], ◌∷◌, ◌++◌, arith, inl, inr,
}
use crypto_exchange_pro.Prelude.Int.{pos, ◌-ℤ◌, ◌≤ℤ◌, int_laws}
use crypto_exchange_pro.Prelude.Decimal.{Decimal}
use crypto_exchange_pro.Models.{
  WalletKey, Funds, Order, OrderSide, OrderType, TradingPair, is_market,
}
use crypto_exchange_pro.Session.{Db, Result, ok, ◌>>=◌}
use crypto_exchange_pro.Tables.Wallets.{funds_of}
use crypto_exchange_pro.Tables.Orders.{
  find_pair, find_order, order_ids, IsFresh, write_order, write_order-append, find_order-append_new,
}
use crypto_exchange_pro.Trading.Place.{place_limit, new_order, as_stored, refresh_order, round_to}
use crypto_exchange_pro.Trading.Cancel.{cancel_order, cancel_row, find_own}
use crypto_exchange_pro.Solvency.Claims.{ledger}
use crypto_exchange_pro.Solvency.Invariant.{IsSolvent}
use crypto_exchange_pro.Solvency.Effects.{Changes, freeze_limit-Runs}
use crypto_exchange_pro.Solvency.Fills.{reserved_by_open}
use crypto_exchange_pro.Solvency.Stored.{FitsColumns}
use crypto_exchange_pro.Solvency.Placing.{place_limit-Places}
use crypto_exchange_pro.Solvency.Cancelling.{cancel_order-releases}

-- A change and its reverse.
restored :
    (w w1 w2 : Funds) (l l1 l2 x : Decimal)
    → Changes w w1 l l1 (pos 0) (pos 0 -ℤ x) x
    → Changes w1 w2 l1 l2 (pos 0) x (pos 0 -ℤ x)
    → (w2 ≡ w) × (l2 ≡ l)
restored w w1 w2 l l1 l2 x c d =
    let balance : w2.balance ≡ w.balance = grind (int_laws, c.balances, d.balances) in
    let available : w2.available ≡ w.available = grind (int_laws, c.availables, d.availables) in
    let frozen : w2.frozen ≡ w.frozen = grind (int_laws, c.frozens, d.frozens) in
    (cc (balance, available, frozen), grind (int_laws, c.ledgers, d.ledgers))

find_own-append :
    (n : ℕ) (os : List Order) (o : Order)
    → o.id ≡ n
    → IsFresh n (order_ids os)
    → find_own o.user_id o.id (os ++ o ∷ []) ≡ some o
unfolding find_own
find_own-append n [] o e fresh = ground arith
find_own-append n (x ∷ os) o e fresh = ground (arith, find_own-append n os o e fresh.2)

abbrev pub Restores : Db → Db → Order → Type 0
Restores db db1 o =
    (db2 : Db) × (cancel_order o.user_id o.id db1 ≡ (ok (cancel_row o), db2))
    × ((k : WalletKey)
        → (funds_of k db2.wallets ≡ funds_of k db.wallets)
          × (ledger k db2.transactions ≡ ledger k db.transactions))

-- A new row that the columns hold as it is stays so when it is read again.
refresh_order-same :
    (db : Db) (os : List Order) (o : Order)
    → db.orders ≡ os ++ o ∷ []
    → IsFresh o.id (order_ids os)
    → as_stored o ≡ o
    → refresh_order o db ≡ (ok o, db)
unfolding refresh_order
refresh_order-same db os o rows fresh exact =
    let same : write_order o.id as_stored db.orders ≡ db.orders =
      ap (write_order o.id as_stored) rows
      ∙ (write_order-append as_stored os o fresh ∙ rw exact (sym rows)) in
    let found : find_order o.id db.orders ≡ some o =
      rw rows (find_order-append_new o.id os o refl fresh) in
    rw same (rw found refl)

-- A limit, take-profit or stop-loss order that is placed on solvent tables, with amounts that the columns
-- hold as they are, can be cancelled by its user once its row has been read again, and then every wallet
-- holds what it held before the placing, available and frozen alike, and every ledger sums to the same.
pub place_limit-cancel_order :
    (db db1 : Db) (u : ℕ) (p : TradingPair) (side : OrderSide) (type : OrderType)
    (qty price : Decimal) (o : Order)
    → IsSolvent db
    → find_pair p.id db.pairs ≡ some p
    → is_market type ≡ false
    → pos 0 ≤ℤ qty
    → pos 0 ≤ℤ price
    → FitsColumns type qty (some price)
    → (place_limit u p side type qty price >>= refresh_order) db ≡ (ok o, db1)
    → Restores db db1 o
unfolding place_limit round_to
place_limit-cancel_order db db1 u p side type qty price o s paired kind hq hp fits runs =
    let row = new_order db.next_id db.now u p side type qty price in
    let start = record db { orders = db.orders ++ row ∷ []; next_id = db.next_id + 1 } in
    let (qty_fits, price_fits, wallet_fits) = fits kind in
    elim (freeze_limit-Runs start u p side qty price) [
      | inr (e, db', fails) ↦ absurd (let h = rw fails at runs in cc (ap (λ r. r.0) h))
      | inl (db', freezes, same, moves) ↦
          let again : refresh_order row db' ≡ (ok row, db') =
            refresh_order-same db' db.orders row same.orders s.fresh
              (rw (qty_fits, price_fits) refl) in
          let placed : (Result.ok row, db') ≡ (ok o, db1) = rw again at (rw freezes at runs) in
          let is_row : row ≡ o = cc (ap (λ r. r.0) placed) in
          let is_db : db' ≡ db1 = ap (λ r. r.1) placed in
          let next : IsSolvent db' =
            elim (place_limit-Places db u p side qty s paired hq type price kind hp fits) [
              | inl (o2, db2, row2, runs2, n, new, listed, exact) ↦
                  let e : db2 ≡ db' = ap (λ r. r.1) (rw freezes at (sym runs2)) in
                  subst IsSolvent e n.solvent
              | inr (e, db2, fails) ↦ absurd (let h = rw freezes at fails in cc (ap (λ r. r.0) h))
            ] in
          let own : find_own u row.id db'.orders ≡ some row =
            rw same.orders (find_own-append db.next_id db.orders row refl s.fresh) in
          let (db2, cancels, orders, back) = cancel_order-releases u row.id db' row next own refl in
          let held = λ (k : WalletKey).
            reserved_by_open db'.pairs k row p price refl (rw same.pairs paired) refl in
          let done : Restores db db' row =
            (db2, cancels, λ k. restored _ _ _ _ _ _ _ (moves k).0 (rw (held k) at (back k))) in
          subst (λ d. Restores db d o) is_db (subst (λ x. Restores db db' x) is_row done)
    ]
