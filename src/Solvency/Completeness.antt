-- ===== src/Solvency/Completeness.antt =====
-- What a sweep (backend/app/services/trading.py, lines 167 to 251) leaves open.
use crypto_exchange_pro.Prelude.{
  ℕ, ◌==◌, ◌≡◌, refl, sym, ap, subst, ◌∙◌, Bool, true, false, Option, some, String, List, [], ◌∷◌,
  arith, All, Bool-cases, inl, inr, select,
}
use mathlib.Core.Bool.{false≢true}
use crypto_exchange_pro.Prelude.Decimal.{Decimal}
use crypto_exchange_pro.Models.{Order, TradingPair, is_open}
use crypto_exchange_pro.Session.{Db, proceed, pure}
use crypto_exchange_pro.Tables.Orders.{
  find_pair, find_order, find_order-id, find_order-contains, order_ids, contains, All-find_order,
  order_ids-select, contains-find_order,
}
use crypto_exchange_pro.Market.{Feed, get_live_price}
use crypto_exchange_pro.Trading.Limit.{execute_limit_fill, fill_order}
use crypto_exchange_pro.Trading.Sweep.{
  Test, try_fill, visit, fill_each, sweep_open_orders, check_conditional_orders, is_swept,
  is_checked, crossed, conditional_triggered,
}
use crypto_exchange_pro.Lifecycle.{Advance, stays, fills, cancels, find_order-write_order}
use crypto_exchange_pro.Solvency.Invariant.{IsSound, IsSolvent}
use crypto_exchange_pro.Solvency.Fills.{
  IsListed, execute_limit_fill-IsSolvent, execute_limit_fill-orders,
}
use crypto_exchange_pro.Solvency.Sweeps.{
  read_price, IsListed-read, IsSolvent-read, IsSwept, visit-Succeeds, fill_each-Succeeds,
}

-- What holds of all keys of a query holds of the key of a row that passes it.
All-select :
    (P : ℕ → Type 0) (p : Order → Bool) (i : ℕ) (os : List Order) (o : Order)
    → All P (order_ids (select p os))
    → find_order i os ≡ some o
    → p o ≡ true
    → P i
unfolding find_order
All-select P p i [] o all found t = absurd (cc)
All-select P p i (x ∷ os) o all found t = elim (Bool-cases (x.id == i)) [
  | inl e ↦
      let same : x ≡ o = ground arith in
      subst P (find_order-id i (x ∷ os) o found) (rw (same, t) at all).0
  | inr e ↦ elim (Bool-cases (p x)) [
    | inl y ↦ All-select P p i os o (rw y at all).1 (rw e at found) t
    | inr n ↦ All-select P p i os o (rw n at all) (rw e at found) t
  ]
]

-- An order that is open has been open, and the same, all along.
Advance-open : (o o' : Order) → Advance o o' → is_open o'.status ≡ true → o' ≡ o
Advance-open o o' (stays e) t = e
Advance-open o o' (fills price u e) t = absurd (cc (ap (λ (x : Order). x.status) e))
Advance-open o o' (cancels u e) t = absurd (cc (ap (λ (x : Order). x.status) e))

module _ (feed : Feed) (fires : Test) (live : String → Decimal)
    (steady : (n : ℕ) (s : String) → feed n s ≡ live s) where
  -- If the order is open, the live price has not reached it.
  abbrev Misses : Db → ℕ → Type 0
  Misses db i =
      (o : Order) (p : TradingPair) (price : Decimal)
      → find_order i db.orders ≡ some o
      → is_open o.status ≡ true
      → find_pair o.pair_id db.pairs ≡ some p
      → o.price ≡ some price
      → fires o.type o.side price (live p.symbol) ≡ false

  Misses-IsSwept :
      (db db' : Db) (i : ℕ)
      → contains i (order_ids db.orders) ≡ true
      → Misses db i
      → IsSwept db db'
      → Misses db' i
  Misses-IsSwept db db' i listed h swept o p price found t paired priced =
      let (o0, found0) = find_order-contains i db.orders listed in
      let (o1, found1, step) = swept.advances i o0 found0 in
      let same : o1 ≡ o = cc in
      let back = Advance-open o0 o1 step (rw same t) in
      let e : o ≡ o0 = sym same ∙ back in
      let r = h o0 p price found0 (rw e at t) (rw (e, swept.pairs) at paired) (rw e at priced) in
      rw e r

  closed-Misses :
      (db : Db) (i : ℕ) (o : Order)
      → find_order i db.orders ≡ some o
      → is_open o.status ≡ false
      → Misses db i
  closed-Misses db i o found closed o' p price found' t paired priced =
      let same : o ≡ o' = cc in absurd (false≢true (sym closed ∙ (rw same t)))

  try_fill-Misses :
      (db : Db) (o : Order) (p : TradingPair) (price : Decimal)
      → IsListed db o p price
      → IsSolvent db
      → Misses (try_fill feed fires o db).1 o.id
  unfolding try_fill get_live_price
  try_fill-Misses db o p price l s =
      let db1 = read_price db in
      let after = (execute_limit_fill o p db1).1 in
      let f = fill_order o.qty price in
      elim (Bool-cases (fires o.type o.side price (feed db.prices_read p.symbol))) [
        | inl t ↦
            let (returns, solvent) =
              execute_limit_fill-IsSolvent db1 o p price (IsListed-read db o p price l)
                (IsSolvent-read db s) in
            let (orders, pairs) = execute_limit_fill-orders db1 o p price l.priced in
            let found =
              ap (find_order o.id) orders
              ∙ find_order-write_order o.id o.id f db.orders o (λ x. refl) l.listed in
            let same : (proceed (execute_limit_fill o p db1) (λ _. pure (some o.id))).1 ≡ after =
              ap (λ r. (proceed (r, after) (λ _. pure (some o.id))).1) returns in
            simp (l.paired, l.priced, t)
              (subst (λ d. Misses d o.id) (sym same)
                (closed-Misses after o.id (f o) (found ∙ rw (==_refl o.id) refl) refl))
        | inr n ↦
            simp (l.paired, l.priced, n)
              (λ o' p' price' found t paired priced.
                let same : o' ≡ o = cc (l.listed, found) in
                cc (l.paired, l.priced, n, steady db.prices_read p.symbol, paired, priced, same))
      ]
    where
      ==_refl : (i : ℕ) → (i == i) ≡ true
      ==_refl i = ground arith

  visit-Misses :
      (db : Db) (i : ℕ)
      → contains i (order_ids db.orders) ≡ true
      → IsSolvent db
      → Misses (visit feed fires i db).1 i
  unfolding visit
  visit-Misses db i h s =
      let (o, found) = find_order-contains i db.orders h in
      elim (Bool-cases (is_open o.status)) [
        | inl t ↦
            let (p, price, paired, priced, qty, nonneg, kind) =
              All-find_order (IsSound db.pairs) i db.orders o s.sound found t in
            let key = find_order-id i db.orders o found in
            let l : IsListed db o p price = record {
              listed = rw key found;
              unfilled = t;
              paired = paired;
              priced = priced;
              qty_nonneg = qty;
              price_nonneg = nonneg;
            } in
            simp (found, t)
              (subst (Misses (try_fill feed fires o db).1) key (try_fill-Misses db o p price l s))
        | inr f ↦
            let runs : db ≡ (visit feed fires i db).1 = simp (found, f) refl in
            subst (λ d. Misses d i) runs (closed-Misses db i o found f)
      ]

  fill_each-Misses :
      (ids : List ℕ) (db : Db)
      → All (λ i. contains i (order_ids db.orders) ≡ true) ids
      → IsSolvent db
      → All (Misses (fill_each feed fires ids db).1) ids
  unfolding fill_each
  fill_each-Misses [] db all s = tt
  fill_each-Misses (i ∷ ids) db all s =
      let (one, db1, runs, swept) = visit-Succeeds feed fires db i all.0 s in
      let all1 : All (λ j. contains j (order_ids db1.orders) ≡ true) ids = rw swept.rows all.1 in
      let (rest, db2, runs2, swept2) = fill_each-Succeeds feed fires ids db1 all1 swept.solvent in
      let first = rw runs at (visit-Misses db i all.0 s) in
      let others = rw runs2 at (fill_each-Misses ids db1 all1 swept.solvent) in
      let ends : db2 ≡ (fill_each feed fires (i ∷ ids) db).1 = rw (runs, runs2) refl in
      subst (λ d. All (Misses d) (i ∷ ids)) ends
        (Misses-IsSwept db1 db2 i (rw swept.rows all.0) first swept2, others)

  -- No open order of the query is left that the price has reached.
  query-Misses :
      (p : Order → Bool) (db : Db)
      → IsSolvent db
      → let db' = (fill_each feed fires (order_ids (select p db.orders)) db).1 in
        (o : Order) (pair : TradingPair) (price : Decimal)
        → find_order o.id db'.orders ≡ some o
        → is_open o.status ≡ true
        → p o ≡ true
        → find_pair o.pair_id db'.pairs ≡ some pair
        → o.price ≡ some price
        → fires o.type o.side price (live pair.symbol) ≡ false
  query-Misses p db s o pair price found t passes paired priced =
      let ids = order_ids (select p db.orders) in
      let all = order_ids-select p db.orders in
      let (rest, db', runs, swept) = fill_each-Succeeds feed fires ids db all s in
      let misses = fill_each-Misses ids db all s in
      let found' = rw runs at found in
      let listed =
        ap (contains o.id) (sym swept.rows) ∙ contains-find_order o.id db'.orders o found' in
      let (o0, found0) = find_order-contains o.id db.orders listed in
      let (o1, found1, step) = swept.advances o.id o0 found0 in
      let same : o1 ≡ o = cc in
      let back : o ≡ o0 = sym same ∙ Advance-open o0 o1 step (rw same t) in
      All-select (Misses (fill_each feed fires ids db).1) p o.id db.orders o0 misses found0
        (rw (sym back) passes) o pair price found t paired priced

-- At prices that stand still, the limit sweep on solvent tables leaves no open limit order of the
-- user whose price the live price has crossed.
pub sweep_open_orders_complete :
    (feed : Feed) (live : String → Decimal) (user_id : ℕ) (db : Db)
    → ((n : ℕ) (s : String) → feed n s ≡ live s)
    → IsSolvent db
    → let db' = (sweep_open_orders feed user_id db).1 in
      (o : Order) (pair : TradingPair) (price : Decimal)
      → find_order o.id db'.orders ≡ some o
      → is_swept user_id o ≡ true
      → find_pair o.pair_id db'.pairs ≡ some pair
      → o.price ≡ some price
      → crossed o.type o.side price (live pair.symbol) ≡ false
unfolding sweep_open_orders
sweep_open_orders_complete feed live user_id db steady s o pair price found swept paired priced =
    query-Misses feed crossed live steady (is_swept user_id) db s o pair price found (ground arith)
      swept paired priced

-- At prices that stand still, the sweep of conditional orders on solvent tables, of one user or of
-- all, leaves none of them open that the live price triggers.
pub check_conditional_orders_complete :
    (feed : Feed) (live : String → Decimal) (user_id : Option ℕ) (db : Db)
    → ((n : ℕ) (s : String) → feed n s ≡ live s)
    → IsSolvent db
    → let db' = (check_conditional_orders feed user_id db).1 in
      (o : Order) (pair : TradingPair) (price : Decimal)
      → find_order o.id db'.orders ≡ some o
      → is_checked user_id o ≡ true
      → find_pair o.pair_id db'.pairs ≡ some pair
      → o.price ≡ some price
      → conditional_triggered o.type o.side price (live pair.symbol) ≡ false
unfolding check_conditional_orders
check_conditional_orders_complete feed live user_id db steady s o pair price found checked paired
      priced =
    query-Misses feed conditional_triggered live steady (is_checked user_id) db s o pair price found
      (ground arith) checked paired priced
