-- ===== src/Solvency/Rows.antt =====
-- The rows of the orders table under every call of the exchange, whatever the wallets hold
-- (backend/app/services/trading.py): they only go from open to filled or cancelled.
use crypto_exchange_pro.Prelude.{
  ℕ, ◌+◌, ◌≤◌, ◌≡◌, refl, ap, ◌∙◌, true, Option, some, List, [], ◌∷◌, ◌++◌, arith, Bool-cases,
  Option-cases, inl, inr,
}
use crypto_exchange_pro.Prelude.Decimal.{Decimal, ◌·◌}
use crypto_exchange_pro.Models.{Order, OrderSide, OrderType, TradingPair, is_open}
use crypto_exchange_pro.Session.{Db, Result, Action, ok, err, proceed, or_rollback}
use crypto_exchange_pro.Tables.Orders.{
  find_order, find_order-id, find_pair, write_order, write_order-append, order_ids,
  order_ids-write_order, IsFresh, IsFresh-mono, IsFresh-append,
}
use crypto_exchange_pro.Market.{Feed, get_live_price}
use crypto_exchange_pro.Trading.Limit.{execute_limit_fill, fill_order}
use crypto_exchange_pro.Trading.Sweep.{
  Test, try_fill, visit, fill_each, sweep_open_orders, check_conditional_orders,
}
use crypto_exchange_pro.Trading.Place.{
  new_order, place_limit, place_market, then_sweep, refresh_order, as_stored,
}
use crypto_exchange_pro.Lifecycle.{
  Advances, fills, Advances-refl, Advances-trans, Advances-append, Advances-write_order,
}
use crypto_exchange_pro.Solvency.Effects.{freeze_limit-Runs, settle_market-Runs, settle_limit-Runs}
use crypto_exchange_pro.Solvency.Stored.{stored-Advances}

abbrev pub HasFresh : Db → Type 0
HasFresh db = IsFresh db.next_id (order_ids db.orders)

-- The rows of the start advance, and the keys stay fresh.
pub record IsKept (start db : Db) : Type 0 where
  pub advances : Advances start.orders db.orders
  pub fresh : HasFresh db

pub IsKept-refl : (db : Db) → HasFresh db → IsKept db db
IsKept-refl db fresh = record { advances = Advances-refl db.orders; fresh = fresh }

pub IsKept-trans : (a b c : Db) → IsKept a b → IsKept b c → IsKept a c
IsKept-trans a b c f g = record {
  advances = Advances-trans a.orders b.orders c.orders f.advances g.advances;
  fresh = g.fresh;
}

-- If the call returns, the rows are kept.
abbrev pub Keeps : {A : Type 0} → Db → Result A × Db → Type 0
Keeps start (ok a, db) = IsKept start db
Keeps start (err e, db) = Unit

pub Keeps-proceed :
    {A B : Type 0} (start : Db) (r : Result A × Db) (f : A → Action B)
    → Keeps start r
    → ((a : A) (db : Db) → IsKept start db → Keeps start (f a db))
    → Keeps start (proceed r f)
Keeps-proceed start (ok a, db) f k h = h a db k
Keeps-proceed start (err e, db) f k h = tt

pub Keeps-trans :
    {A : Type 0} (start db : Db) (r : Result A × Db) → IsKept start db → Keeps db r → Keeps start r
Keeps-trans start db (ok a, db') k h = IsKept-trans start db db' k h
Keeps-trans start db (err e, db') k h = tt

pub Keeps-or_rollback :
    {A : Type 0} (start other : Db) (r : Result A × Db)
    → Keeps start r
    → Keeps start (or_rollback other r)
Keeps-or_rollback start other (ok a, db) k = k
Keeps-or_rollback start other (err e, db) k = tt

-- What a request's session leaves.
pub IsKept-commits :
    {A : Type 0} (start : Db) (r : Result A × Db)
    → HasFresh start
    → Keeps start r
    → IsKept start (or_rollback start r).1
IsKept-commits start (ok a, db) fresh k = k
IsKept-commits start (err e, db) fresh k = IsKept-refl start fresh

-- A row is closed.
pub closed-IsKept :
    (db db' : Db) (o : Order) (f : Order → Order)
    → ((x : Order) → (f x).id ≡ x.id)
    → find_order o.id db.orders ≡ some o
    → Advances db.orders (write_order o.id f db.orders)
    → db'.orders ≡ write_order o.id f db.orders
    → db.next_id ≤ db'.next_id
    → HasFresh db
    → IsKept db db'
closed-IsKept db db' o f keeps found step rows later fresh = record {
  advances = rw rows step;
  fresh =
      rw (rows, order_ids-write_order o.id f db.orders keeps)
        (IsFresh-mono db.next_id db'.next_id _ later fresh);
}

execute_limit_fill-Keeps :
    (db : Db) (o : Order) (p : TradingPair)
    → find_order o.id db.orders ≡ some o
    → is_open o.status ≡ true
    → HasFresh db
    → Keeps db (execute_limit_fill o p db)
unfolding execute_limit_fill
execute_limit_fill-Keeps db o p found unfilled fresh = elim (Option-cases o.price) [
  | inl e ↦ rw e tt
  | inr (price, e) ↦
      let f = fill_order o.qty price in
      let (db', runs, same, moves) =
        settle_limit-Runs db o.user_id p o.side o.qty (o.qty · price) in
      rw (e, runs)
        (closed-IsKept db _ o f (λ x. refl) found
          (Advances-write_order db.orders f o (λ x. refl) found (fills price unfilled refl))
          (ap (write_order o.id f) same.orders) (omega (arith, same.next_id)) fresh)
]

module _ (feed : Feed) (fires : Test) where
  visit-Keeps : (i : ℕ) (db : Db) → HasFresh db → Keeps db (visit feed fires i db)
  unfolding visit try_fill get_live_price
  visit-Keeps i db fresh = elim (Option-cases (find_order i db.orders)) [
    | inl e ↦ rw e tt
    | inr (o, e) ↦ elim (Bool-cases (is_open o.status)) [
      | inr f ↦ rw (e, f) (IsKept-refl db fresh)
      | inl t ↦ elim (Option-cases (find_pair o.pair_id db.pairs)) [
        | inl n ↦ simp (e, t, n) tt
        | inr (p, n) ↦ elim (Option-cases o.price) [
          | inl m ↦ simp (e, t, n, m) tt
          | inr (price, m) ↦
              let db1 = record db { prices_read = db.prices_read + 1 } in
              let read : IsKept db db1 = record {
                advances = Advances-refl db.orders;
                fresh = fresh;
              } in
              let listed : find_order o.id db.orders ≡ some o =
                ap (λ j. find_order j db.orders) (find_order-id i db.orders o e) ∙ e in
              elim (Bool-cases (fires o.type o.side price (feed db.prices_read p.symbol))) [
                | inr f ↦ simp (e, t, n, m, f) read
                | inl r ↦
                    simp (e, t, n, m, r)
                      (Keeps-proceed db (execute_limit_fill o p db1) _
                        (Keeps-trans db db1 _ read
                          (execute_limit_fill-Keeps db1 o p listed t fresh))
                        (λ a db2 k. k))
              ]
        ]
      ]
    ]
  ]

  pub fill_each-Keeps :
      (ids : List ℕ) (db : Db) → HasFresh db → Keeps db (fill_each feed fires ids db)
  unfolding fill_each
  fill_each-Keeps [] db fresh = IsKept-refl db fresh
  fill_each-Keeps (i ∷ ids) db fresh =
      Keeps-proceed db (visit feed fires i db) _ (visit-Keeps i db fresh) (λ one db1 k1.
        Keeps-proceed db (fill_each feed fires ids db1) _
          (Keeps-trans db db1 _ k1 (fill_each-Keeps ids db1 k1.fresh)) (λ rest db2 k2. k2))

sweep_open_orders-Keeps :
    (feed : Feed) (u : ℕ) (db : Db) → HasFresh db → Keeps db (sweep_open_orders feed u db)
unfolding sweep_open_orders
sweep_open_orders-Keeps feed u db fresh = fill_each-Keeps feed _ _ db fresh

pub check_conditional_orders-Keeps :
    (feed : Feed) (u : Option ℕ) (db : Db)
    → HasFresh db
    → Keeps db (check_conditional_orders feed u db)
unfolding check_conditional_orders
check_conditional_orders-Keeps feed u db fresh = fill_each-Keeps feed _ _ db fresh

-- A call that adds an order under the next key.
abbrev pub Adds : Db → Result Order × Db → Type 0
Adds start (ok o, db) = IsKept start db × (o.id ≡ start.next_id)
Adds start (err e, db) = Unit

module _ (db : Db) (u : ℕ) (p : TradingPair) (side : OrderSide) (qty : Decimal)
    (fresh : HasFresh db) where
  pub place_limit-Adds :
      (type : OrderType) (price : Decimal) → Adds db (place_limit u p side type qty price db)
  unfolding place_limit
  place_limit-Adds type price =
      let o = new_order db.next_id db.now u p side type qty price in
      let db1 = record db { orders = db.orders ++ o ∷ []; next_id = db.next_id + 1 } in
      elim (freeze_limit-Runs db1 u p side qty price) [
        | inr (e, db2, runs) ↦ rw runs tt
        | inl (db2, runs, same, moves) ↦ rw runs (
          record {
            advances = rw same.orders (Advances-append db.orders o);
            fresh =
                rw (same.orders, same.next_id) (IsFresh-append db.next_id db.orders o refl fresh);
          },
          refl,
        )
      ]

  pub place_market-Adds : (feed : Feed) → Adds db (place_market feed u p side qty db)
  unfolding place_market
  place_market-Adds feed =
      let price = feed db.prices_read p.symbol in
      let o = new_order db.next_id db.now u p side OrderType.market qty price in
      let db1 = record db {
        orders = db.orders ++ o ∷ [];
        next_id = db.next_id + 1;
        prices_read = db.prices_read + 1;
      } in
      let f = fill_order qty price in
      elim (settle_market-Runs db1 u p side qty (qty · price)) [
        | inr (e, db2, runs) ↦ rw runs tt
        | inl (db2, runs, same, moves) ↦
            let rows =
              ap (write_order o.id f) same.orders ∙ write_order-append f db.orders o fresh in
            rw runs (
              record {
                advances = rw rows (Advances-append db.orders (f o));
                fresh =
                    IsFresh-mono (db.next_id + 1) (db2.next_id + 1) _ (omega (arith, same.next_id))
                      (rw rows (IsFresh-append db.next_id db.orders (f o) refl fresh));
              },
              refl,
            )
      ]

refresh_order-Keeps :
    (start db : Db) (o : Order)
    → HasFresh start
    → o.id ≡ start.next_id
    → IsKept start db
    → Keeps start (refresh_order o db)
unfolding refresh_order
refresh_order-Keeps start db o fresh new k =
    elim (Option-cases (find_order o.id (write_order o.id as_stored db.orders))) [
      | inl e ↦ rw e tt
      | inr (row, e) ↦ rw e (record {
        advances = stored-Advances start.orders db.orders o.id (rw new fresh) k.advances;
        fresh = rw (order_ids-write_order o.id as_stored db.orders (λ x. refl)) k.fresh;
      })
    ]

pub Adds-or_rollback :
    (start other : Db) (r : Result Order × Db) → Adds start r → Adds start (or_rollback other r)
Adds-or_rollback start other (ok o, db) a = a
Adds-or_rollback start other (err e, db) a = tt

pub then_sweep-Adds :
    (feed : Feed) (u : ℕ) (start : Db) (place : Action Order)
    → Adds start (place start)
    → Adds start (then_sweep feed u place start)
unfolding then_sweep
then_sweep-Adds feed u start place = go (place start)
  where
    checked :
        (o : Order) (r : Result (List ℕ) × Db)
        → o.id ≡ start.next_id
        → Keeps start r
        → Adds start (proceed r (λ b db. (ok o, db)))
    checked o (ok b, db) new k = (k, new)
    checked o (err e, db) new k = tt

    swept :
        (o : Order) (r : Result (List ℕ) × Db)
        → o.id ≡ start.next_id
        → Keeps start r
        → Adds start (
            proceed r
              (λ a db. proceed (check_conditional_orders feed (some u) db) (λ b db'. (ok o, db'))))
    swept o (ok a, db) new k =
        checked o _ new
          (Keeps-trans start db _ k (check_conditional_orders-Keeps feed (some u) db k.fresh))
    swept o (err e, db) new k = tt

    go :
        (r : Result Order × Db)
        → Adds start r
        → Adds start (
            proceed r (λ o db. proceed (sweep_open_orders feed u db) (λ a db'.
              proceed (check_conditional_orders feed (some u) db') (λ b db''. (ok o, db'')))))
    go (ok o, db) (k, new) =
        swept o _ new (Keeps-trans start db _ k (sweep_open_orders-Keeps feed u db k.fresh))
    go (err e, db) k = tt

pub refreshed-Keeps :
    (start : Db) (r : Result Order × Db)
    → HasFresh start
    → Adds start r
    → Keeps start (proceed r refresh_order)
refreshed-Keeps start (ok o, db) fresh (k, new) = refresh_order-Keeps start db o fresh new k
refreshed-Keeps start (err e, db) fresh k = tt
