-- ===== src/Solvency/Placing.antt =====
-- Placing an order (backend/app/services/trading.py, lines 254 to 375) on solvent tables.
use crypto_exchange_pro.Prelude.{
  ℕ, ◌+◌, ◌≡◌, refl, ap, ◌∙◌, false, Option, none, some, [], ◌∷◌, ◌++◌, ◌⊎◌, inl, inr, arith,
  String, Bool-cases, Option-cases,
}
use crypto_exchange_pro.Prelude.Int.{pos, ◌+ℤ◌, ◌-ℤ◌, ◌≤ℤ◌, leb_ℤ, int_laws}
use crypto_exchange_pro.Prelude.Decimal.{Decimal, ◌·◌, ·-nonneg}
use crypto_exchange_pro.Models.{
  Order, OrderSide, OrderType, TradingPair, is_market, market, limit, take_profit, stop_loss,
}
use crypto_exchange_pro.Session.{Db, Error, Result, Action, ok, err, proceed, or_rollback}
use crypto_exchange_pro.Tables.Orders.{
  find_pair, find_order, write_order, order_ids, write_order-append, All-append_one, IsFresh-append,
  IsFresh, find_order-append_new, find_symbol, IsFresh-mono,
}
use crypto_exchange_pro.Market.{Feed}
use crypto_exchange_pro.Trading.Limit.{fill_order, record_fill}
use crypto_exchange_pro.Trading.Place.{
  new_order, place_limit, place_market, then_sweep, refresh_order, as_stored, place_on, place_order,
}
use crypto_exchange_pro.Lifecycle.{find_order-write_order, Advances-append, Advances-trans}
use mathlib.Core.Bool.{false≢true}
use crypto_exchange_pro.Solvency.Claims.{reserved-append}
use crypto_exchange_pro.Solvency.Stored.{
  FitsColumns, IsExact, IsExact-Advance, stored-IsSolvent, stored-Advances,
}
use crypto_exchange_pro.Solvency.Invariant.{
  IsSound, IsSolvent, IsNext, IsAtomic, find_pair-find_symbol,
}
use crypto_exchange_pro.Solvency.Effects.{IsBacked-Changes, freeze_limit-Runs, settle_market-Runs}
use crypto_exchange_pro.Solvency.Sweeps.{
  sweep_open_orders-Succeeds, check_conditional_orders-Succeeds,
}
use crypto_exchange_pro.Solvency.Fills.{reserved_by_open, reserved_by_closed, received-nonneg}

-- The order that was asked for has a new row and the tables are solvent, or there was an error.
abbrev pub Places : Db → Result Order × Db → Type 0
Places db r =
    ((o : Order) × (db' : Db) × (row : Order) × (r ≡ (ok o, db'))
      × IsNext db db'
      × (o.id ≡ db.next_id)
      × (find_order o.id db'.orders ≡ some row)
      × IsExact row)
    ⊎ ((e : Error) × (db' : Db) × (r ≡ (err e, db')))

covered_nonneg :
    (available out gain : Decimal)
    → (out ≤ℤ available) ⊎ (out ≡ pos 0)
    → pos 0 ≤ℤ available
    → pos 0 ≤ℤ gain
    → pos 0 ≤ℤ available +ℤ (gain -ℤ out)
covered_nonneg available out gain c a g = grind int_laws

add_zero : (a : Decimal) → a ≡ a +ℤ pos 0
add_zero a = omega int_laws

module _ (db : Db) (u : ℕ) (p : TradingPair) (side : OrderSide) (qty : Decimal) (s : IsSolvent db)
    (paired : find_pair p.id db.pairs ≡ some p) (qty_nonneg : pos 0 ≤ℤ qty) where
  pub place_limit-Places :
      (type : OrderType) (price : Decimal)
      → is_market type ≡ false
      → pos 0 ≤ℤ price
      → FitsColumns type qty (some price)
      → Places db (place_limit u p side type qty price db)
  unfolding place_limit
  place_limit-Places type price kind nonneg fits =
      let o = new_order db.next_id db.now u p side type qty price in
      let db1 = record db { orders = db.orders ++ o ∷ []; next_id = db.next_id + 1 } in
      elim (freeze_limit-Runs db1 u p side qty price) [
        | inl (db2, runs, same, moves) ↦ inl (
          o,
          db2,
          o,
          rw runs refl,
          record {
            solvent = record {
              backed = λ k.
                  rw
                    (
                      same.orders,
                      same.pairs,
                      reserved-append db.pairs k db.orders o,
                      reserved_by_open db.pairs k o p price refl paired refl,
                    )
                    (IsBacked-Changes _ _ _ _ _ _ _ _ _ (s.backed k) (moves k).0 (omega int_laws)
                      refl (covered_nonneg _ _ _ (moves k).1 (s.backed k).covered (omega arith)));
              sound =
                  rw (same.orders, same.pairs)
                    (All-append_one (IsSound db.pairs) db.orders o s.sound
                      (λ _. (p, price, paired, refl, qty_nonneg, nonneg, kind)));
              fresh =
                  rw (same.orders, same.next_id)
                    (IsFresh-append db.next_id db.orders o refl s.fresh);
              keyed = rw same.pairs s.keyed;
            };
            advances = rw same.orders (Advances-append db.orders o);
          },
          refl,
          rw same.orders (find_order-append_new db.next_id db.orders o refl s.fresh),
          λ t. let (q, c, w) = fits kind in (q, c),
        )
        | inr (e, db2, runs) ↦ inr (e, db2, rw runs refl)
      ]

  -- A market order at a price of zero or more.
  place_market-Places :
      (feed : Feed)
      → ((n : ℕ) (symbol : String) → pos 0 ≤ℤ feed n symbol)
      → Places db (place_market feed u p side qty db)
  unfolding place_market
  place_market-Places feed nonneg =
      let price = feed db.prices_read p.symbol in
      let o = new_order db.next_id db.now u p side market qty price in
      let db1 = record db {
        orders = db.orders ++ o ∷ [];
        next_id = db.next_id + 1;
        prices_read = db.prices_read + 1;
      } in
      let f = fill_order qty price in
      elim (settle_market-Runs db1 u p side qty (qty · price)) [
        | inl (db2, runs, same, moves) ↦
            let rows =
              ap (write_order o.id f) same.orders ∙ write_order-append f db.orders o s.fresh in
            inl (
              o,
              (record_fill o p price qty (qty · price) db2).1,
              f o,
              rw runs refl,
              record {
                solvent = record {
                  backed = λ k.
                      rw
                        (
                          rows,
                          same.pairs,
                          reserved-append db.pairs k db.orders (f o),
                          reserved_by_closed db.pairs k (f o) refl,
                        )
                        (IsBacked-Changes _ _ _ _ _ _ _ _ _ (s.backed k) (moves k).0 (add_zero _)
                          refl
                          (covered_nonneg _ _ _ (moves k).1 (s.backed k).covered (
                            received-nonneg k u p side qty (qty · price) qty_nonneg
                              (·-nonneg qty price qty_nonneg (nonneg _ _)))));
                  sound =
                      rw (rows, same.pairs)
                        (All-append_one (IsSound db.pairs) db.orders (f o) s.sound (λ h. cc));
                  fresh =
                      IsFresh-mono (db.next_id + 1) (db2.next_id + 1) _
                        (omega (arith, same.next_id))
                        (rw rows (IsFresh-append db.next_id db.orders (f o) refl s.fresh));
                  keyed = rw same.pairs s.keyed;
                };
                advances = rw rows (Advances-append db.orders (f o));
              },
              refl,
              rw rows (find_order-append_new db.next_id db.orders (f o) refl s.fresh),
              λ t. absurd (false≢true t),
            )
        | inr (e, db2, runs) ↦ inr (e, db2, rw runs refl)
      ]

-- The row of a new order, read again.
refreshed-IsNext :
    (start db : Db) (o row : Order)
    → o.id ≡ start.next_id
    → IsFresh start.next_id (order_ids start.orders)
    → IsNext start db
    → find_order o.id db.orders ≡ some row
    → IsExact row
    → IsAtomic start (refresh_order o db)
unfolding refresh_order
refreshed-IsNext start db o row new fresh n found exact =
    let stored = find_order-write_order o.id o.id as_stored db.orders row (λ x. refl) found in
    let (row', found') = found_some _ _ stored in
    rw found' (record {
      solvent = stored-IsSolvent db o.id row found exact n.solvent;
      advances = stored-Advances start.orders db.orders o.id (rw new fresh) n.advances;
    })
  where
    found_some : (x : Option Order) (y : Order) → x ≡ some y → (z : Order) × (x ≡ some z)
    found_some x y e = (y, e)

-- Sweeps after an order that was added, the rollback, and the last read of its row.
swept-IsAtomic :
    (feed : Feed) (start : Db) (u : ℕ) (place : Action Order)
    → IsSolvent start
    → Places start (place start)
    → IsAtomic start (proceed (or_rollback start (then_sweep feed u place start)) refresh_order)
unfolding then_sweep
swept-IsAtomic feed start u place s (inr (e, db1, runs)) = rw runs refl
swept-IsAtomic feed start u place s (inl (o, db1, row, runs, n1, new, found, exact)) =
    let (a, db2, runs2, s2) = sweep_open_orders-Succeeds feed u db1 n1.solvent in
    let (b, db3, runs3, s3) = check_conditional_orders-Succeeds feed (some u) db2 s2.solvent in
    let swept = Advances-trans db1.orders db2.orders db3.orders s2.advances s3.advances in
    let (row', found', step) = swept o.id row found in
    rw (runs, runs2, runs3)
      (refreshed-IsNext start db3 o row' new s.fresh
        (record {
          solvent = s3.solvent;
          advances = Advances-trans start.orders db1.orders db3.orders n1.advances swept;
        })
        found' (IsExact-Advance row row' step exact))

module _ (feed : Feed) (db : Db) (u : ℕ) (p : TradingPair) (side : OrderSide) (qty : Decimal)
    (nonneg : (n : ℕ) (s : String) → pos 0 ≤ℤ feed n s) (s : IsSolvent db)
    (paired : find_pair p.id db.pairs ≡ some p) (positive : pos 0 ≤ℤ qty) where
  resting-IsAtomic :
      (type : OrderType) (price : Option Decimal)
      → is_market type ≡ false
      → FitsColumns type qty price
      → IsAtomic db (proceed (place_on feed db u p side type qty price db) refresh_order)
  unfolding place_on
  resting-IsAtomic type none kind fits = rw kind refl
  resting-IsAtomic type (some price) kind fits = elim (Bool-cases (leb_ℤ price (pos 0))) [
    | inl t ↦ rw (kind, t) refl
    | inr f ↦
        rw (kind, f)
          (swept-IsAtomic feed db u (place_limit u p side type qty price) s (
            place_limit-Places db u p side qty s paired positive type price kind (ground arith)
              fits))
  ]

  place_on-IsAtomic :
      (type : OrderType) (price : Option Decimal)
      → FitsColumns type qty price
      → IsAtomic db (proceed (place_on feed db u p side type qty price db) refresh_order)
  unfolding place_on
  place_on-IsAtomic market price fits =
      swept-IsAtomic feed db u (place_market feed u p side qty) s
        (place_market-Places db u p side qty s paired positive feed nonneg)
  place_on-IsAtomic limit price fits = resting-IsAtomic limit price refl fits
  place_on-IsAtomic take_profit price fits = resting-IsAtomic take_profit price refl fits
  place_on-IsAtomic stop_loss price fits = resting-IsAtomic stop_loss price refl fits

-- Placing an order on solvent tables, at live prices of zero or more, with amounts that the columns hold
-- as they are if it is no market order, either returns on solvent
-- tables in which every earlier order is as it was, or open before and filled or cancelled, or
-- raises and leaves the tables as they were.
pub place_order-IsAtomic :
    (feed : Feed) (db : Db) (u : ℕ) (symbol : String) (side : OrderSide) (type : OrderType)
    (qty : Decimal) (price : Option Decimal)
    → ((n : ℕ) (s : String) → pos 0 ≤ℤ feed n s)
    → FitsColumns type qty price
    → IsSolvent db
    → IsAtomic db (place_order feed u symbol side type qty price db)
unfolding place_order
place_order-IsAtomic feed db u symbol side type qty price nonneg fits s =
    elim (Bool-cases (leb_ℤ qty (pos 0))) [
      | inl t ↦ rw t refl
      | inr f ↦ elim (Option-cases (find_symbol symbol db.pairs)) [
        | inl e ↦ rw (f, e) refl
        | inr (p, e) ↦ elim (Bool-cases p.is_active) [
          | inr off ↦ rw (f, e, off) refl
          | inl on ↦
              let paired = find_pair-find_symbol symbol db.pairs p s.keyed e in
              simp (f, e, on)
                (place_on-IsAtomic feed db u p side qty nonneg s paired (ground arith) type price
                  fits)
        ]
      ]
    ]
