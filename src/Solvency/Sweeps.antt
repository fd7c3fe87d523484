-- ===== src/Solvency/Sweeps.antt =====
-- The sweeps (backend/app/services/trading.py, lines 167 to 251) on solvent tables.
use crypto_exchange_pro.Prelude.{
  ℕ, ◌+◌, ◌≡◌, refl, ap, ◌∙◌, true, Option, none, some, List, [], ◌∷◌, All, Bool-cases, inl, inr,
}
use crypto_exchange_pro.Prelude.Decimal.{Decimal}
use crypto_exchange_pro.Models.{Order, TradingPair, is_open}
use crypto_exchange_pro.Session.{Db, Result, ok, proceed, pure}
use crypto_exchange_pro.Tables.Orders.{
  find_order-id, find_order-contains, order_ids, contains, All-find_order, order_ids-select,
  order_ids-write_order,
}
use crypto_exchange_pro.Market.{Feed, get_live_price}
use crypto_exchange_pro.Trading.Limit.{execute_limit_fill, fill_order}
use crypto_exchange_pro.Trading.Sweep.{
  Test, try_fill, visit, fill_each, sweep_open_orders, check_conditional_orders, is_swept,
  is_checked, crossed, conditional_triggered, append_some,
}
use crypto_exchange_pro.Lifecycle.{
  Advances, fills, Advances-refl, Advances-trans, Advances-write_order,
}
use crypto_exchange_pro.Solvency.Invariant.{IsSound, IsSolvent}
use crypto_exchange_pro.Solvency.Fills.{
  IsListed, execute_limit_fill-IsSolvent, execute_limit_fill-orders,
}

-- What a sweep leaves: solvent tables with the same pairs, the same orders in the same places, some
-- of the open ones filled.
pub record IsSwept (db db' : Db) : Type 0 where
  pub solvent : IsSolvent db'
  pub advances : Advances db.orders db'.orders
  pub rows : order_ids db'.orders ≡ order_ids db.orders
  pub pairs : db'.pairs ≡ db.pairs

IsSwept-refl :
    (db db' : Db) → IsSolvent db' → db'.orders ≡ db.orders → db'.pairs ≡ db.pairs → IsSwept db db'
IsSwept-refl db db' s orders pairs = record {
  solvent = s;
  advances = rw orders (Advances-refl db.orders);
  rows = ap order_ids orders;
  pairs = pairs;
}

IsSwept-trans : (a b c : Db) → IsSwept a b → IsSwept b c → IsSwept a c
IsSwept-trans a b c f g = record {
  solvent = g.solvent;
  advances = Advances-trans a.orders b.orders c.orders f.advances g.advances;
  rows = g.rows ∙ f.rows;
  pairs = g.pairs ∙ f.pairs;
}

-- The call returns, on swept tables.
abbrev pub Succeeds : {A : Type 0} → Db → Result A × Db → Type 0
Succeeds {A} db r = (a : A) × (db' : Db) × (r ≡ (ok a, db')) × IsSwept db db'

filled-IsSwept :
    (db : Db) (o : Order) (p : TradingPair) (price : Decimal)
    → IsListed db o p price
    → IsSolvent (execute_limit_fill o p db).1
    → IsSwept db (execute_limit_fill o p db).1
filled-IsSwept db o p price l s =
    let (orders, pairs) = execute_limit_fill-orders db o p price l.priced in
    let f = fill_order o.qty price in
    record {
      solvent = s;
      advances =
          rw orders
            (Advances-write_order db.orders f o (λ x. refl) l.listed (fills price l.unfilled refl));
      rows = ap order_ids orders ∙ order_ids-write_order o.id f db.orders (λ x. refl);
      pairs = pairs;
    }

-- Reading a live price changes no table.
abbrev pub read_price : Db → Db
read_price db = record db { prices_read = db.prices_read + 1 }

pub IsListed-read :
    (db : Db) (o : Order) (p : TradingPair) (price : Decimal)
    → IsListed db o p price
    → IsListed (read_price db) o p price
IsListed-read db o p price l = record {
  listed = l.listed;
  unfilled = l.unfilled;
  paired = l.paired;
  priced = l.priced;
  qty_nonneg = l.qty_nonneg;
  price_nonneg = l.price_nonneg;
}

pub IsSolvent-read : (db : Db) → IsSolvent db → IsSolvent (read_price db)
IsSolvent-read db s = record {
  backed = s.backed;
  sound = s.sound;
  fresh = s.fresh;
  keyed = s.keyed;
}

module _ (feed : Feed) (fires : Test) where
  pub try_fill-Succeeds :
      (db : Db) (o : Order) (p : TradingPair) (price : Decimal)
      → IsListed db o p price
      → IsSolvent db
      → Succeeds db (try_fill feed fires o db)
  unfolding try_fill get_live_price
  try_fill-Succeeds db o p price l s =
      let db1 = read_price db in
      let l1 = IsListed-read db o p price l in
      let s1 = IsSolvent-read db s in
      let (returns, solvent) = execute_limit_fill-IsSolvent db1 o p price l1 s1 in
      let after = (execute_limit_fill o p db1).1 in
      elim (Bool-cases (fires o.type o.side price (feed db.prices_read p.symbol))) [
        | inl t ↦ (
          some o.id,
          after,
          simp (l.paired, l.priced, t)
              (ap {B = Result (Option ℕ) × Db} (λ r. proceed (r, after) (λ _. pure (some o.id)))
                returns),
          IsSwept-trans db db1 after (IsSwept-refl db db1 s1 refl refl)
              (filled-IsSwept db1 o p price l1 solvent),
        )
        | inr f ↦ (none, db1, simp (l.paired, l.priced, f), IsSwept-refl db db1 s1 refl refl)
      ]

  pub visit-Succeeds :
      (db : Db) (i : ℕ)
      → contains i (order_ids db.orders) ≡ true
      → IsSolvent db
      → Succeeds db (visit feed fires i db)
  unfolding visit
  visit-Succeeds db i h s =
      let (o, found) = find_order-contains i db.orders h in
      elim (Bool-cases (is_open o.status)) [
        | inl t ↦
            let (p, price, paired, priced, qty, nonneg, kind) =
              All-find_order (IsSound db.pairs) i db.orders o s.sound found t in
            let l : IsListed db o p price = record {
              listed = rw (find_order-id i db.orders o found) found;
              unfilled = t;
              paired = paired;
              priced = priced;
              qty_nonneg = qty;
              price_nonneg = nonneg;
            } in
            let (a, db', runs, swept) = try_fill-Succeeds db o p price l s in
            (a, db', simp (found, t) runs, swept)
        | inr f ↦ (none, db, simp (found, f), IsSwept-refl db db s refl refl)
      ]

  -- Visiting listed orders never fails.
  pub fill_each-Succeeds :
      (ids : List ℕ) (db : Db)
      → All (λ i. contains i (order_ids db.orders) ≡ true) ids
      → IsSolvent db
      → Succeeds db (fill_each feed fires ids db)
  unfolding fill_each
  fill_each-Succeeds [] db all s = ([], db, refl, IsSwept-refl db db s refl refl)
  fill_each-Succeeds (i ∷ ids) db all s =
      let (one, db1, runs, swept) = visit-Succeeds db i all.0 s in
      let (rest, db2, runs2, swept2) =
        fill_each-Succeeds ids db1 (rw swept.rows all.1) swept.solvent in
      (append_some one rest, db2, rw (runs, runs2), IsSwept-trans db db1 db2 swept swept2)

-- On solvent tables the limit sweep of a user returns, never raising, and leaves solvent tables
-- with the same pairs and the same orders in the same places, each as it was, or open before and
-- then filled or cancelled.
pub sweep_open_orders-Succeeds :
    (feed : Feed) (user_id : ℕ) (db : Db)
    → IsSolvent db
    → Succeeds db (sweep_open_orders feed user_id db)
unfolding sweep_open_orders
sweep_open_orders-Succeeds feed user_id db s =
    fill_each-Succeeds feed crossed _ db (order_ids-select (is_swept user_id) db.orders) s

-- On solvent tables the sweep of take-profit and stop-loss orders, of one user or of all, returns,
-- never raising, and leaves solvent tables with the same pairs and the same orders in the same
-- places, each as it was, or open before and then filled or cancelled.
pub check_conditional_orders-Succeeds :
    (feed : Feed) (user_id : Option ℕ) (db : Db)
    → IsSolvent db
    → Succeeds db (check_conditional_orders feed user_id db)
unfolding check_conditional_orders
check_conditional_orders-Succeeds feed user_id db s =
    fill_each-Succeeds feed conditional_triggered _ db
      (order_ids-select (is_checked user_id) db.orders) s
