-- ===== src/Solvency/Cancelling.antt =====
-- Cancelling an order (backend/app/services/trading.py, lines 378 to 401) on solvent tables.
use crypto_exchange_pro.Prelude.{
  true, ℕ, ◌+◌, subst, ◌≡◌, refl, sym, ap, some, List, [], ◌∷◌, arith, Bool-cases, Option-cases,
  inl, inr,
}
use crypto_exchange_pro.Prelude.Int.{pos, ◌-ℤ◌, int_laws}
use crypto_exchange_pro.Prelude.Decimal.{Decimal, ◌·◌, ·-nonneg}
use crypto_exchange_pro.Trading.Limit.{notify_order_cancelled}
use crypto_exchange_pro.Models.{WalletKey, Order, TradingPair, is_open}
use crypto_exchange_pro.Session.{Db, ok}
use crypto_exchange_pro.Tables.Orders.{
  find_order, order_ids, IsFresh, IsFresh-mono, contains-find_order, write_order, All-find_order,
}
use crypto_exchange_pro.Trading.Cancel.{cancel_order, find_own, cancel_row}
use crypto_exchange_pro.Lifecycle.{cancels, Advances-write_order}
use crypto_exchange_pro.Solvency.Claims.{spent, reserved_by}
use crypto_exchange_pro.Solvency.Invariant.{IsSound, IsSolvent, IsAtomic}
use crypto_exchange_pro.Solvency.Effects.{Effect, unfreeze_limit-Runs}
use crypto_exchange_pro.Solvency.Fills.{IsListed, reserved_by_open, close-IsSolvent, spent-nonneg}

-- The row of a user's order is the row of its key.
pub find_own-find_order :
    (u i n : ℕ) (os : List Order) (o : Order)
    → find_own u i os ≡ some o
    → IsFresh n (order_ids os)
    → (find_order o.id os ≡ some o) × (o.id ≡ i) × (o.user_id ≡ u)
unfolding find_own find_order
find_own-find_order u i n [] o e fresh = absurd (cc)
find_own-find_order u i n (x ∷ os) o e fresh =
    ground (arith, find_own-find_order u i n os o, contains-find_order o.id os o)

module _ (db : Db) (u i : ℕ) (o : Order) (p : TradingPair) (price : Decimal)
    (own : find_own u i db.orders ≡ some o) (l : IsListed db o p price)
    (owner : o.user_id ≡ u) where
  -- The owner's open order is cancelled, and its reservation becomes available again.
  pub cancel_order_returns :
      (db' : Db) × (cancel_order u i db ≡ (ok (cancel_row o), db'))
      × (db'.orders ≡ write_order o.id cancel_row db.orders)
      × ((k : WalletKey)
          → let held = spent k o.user_id p o.side o.qty (o.qty · price) in
            Effect db db' k (pos 0) held (pos 0 -ℤ held))
      × (IsSolvent db → IsSolvent db')
  unfolding cancel_order
  cancel_order_returns =
      let (db1, runs, same, moves) = unfreeze_limit-Runs db o.user_id p o.side o.qty price in
      let db2 =
        (notify_order_cancelled (cancel_row o) p
          (record db1 { orders = write_order o.id cancel_row db1.orders })).1 in
      (
        db2,
        simp (own, l.unfilled, l.paired, l.priced, ← owner, runs) refl,
        ap (write_order o.id cancel_row) same.orders,
        moves,
        λ s.
            let closed =
              close-IsSolvent db db1 o p price cancel_row (λ k. pos 0)
                (λ k. spent k o.user_id p o.side o.qty (o.qty · price)) l (λ x. (refl, refl)) same
                (λ k.
                  spent-nonneg k o.user_id p o.side o.qty (o.qty · price) l.qty_nonneg
                    (·-nonneg o.qty price l.qty_nonneg l.price_nonneg))
                (λ k. (omega int_laws, moves k)) s in
            record {
              backed = closed.backed;
              sound = closed.sound;
              fresh = IsFresh-mono db1.next_id (db1.next_id + 1) _ (omega arith) closed.fresh;
              keyed = closed.keyed;
            },
      )

-- A user's open order on solvent tables has a pair and a price.
own-IsListed :
    (u i : ℕ) (db : Db) (o : Order)
    → IsSolvent db
    → find_own u i db.orders ≡ some o
    → is_open o.status ≡ true
    → (p : TradingPair) × (price : Decimal) × IsListed db o p price × (o.user_id ≡ u)
own-IsListed u i db o s own t =
    let (found, key, owner) = find_own-find_order u i db.next_id db.orders o own s.fresh in
    let (p, price, paired, priced, qty, nonneg, kind) =
      All-find_order (IsSound db.pairs) o.id db.orders o s.sound found t in
    (
      p,
      price,
      record {
        listed = found;
        unfilled = t;
        paired = paired;
        priced = priced;
        qty_nonneg = qty;
        price_nonneg = nonneg;
      },
      owner,
    )

-- On solvent tables, a user who cancels an open order of theirs gets it back as cancelled; it is
-- the one row of the orders table that changes; and in every wallet exactly what the order kept
-- reserved moves from frozen to available, the balance as it was.
pub cancel_order-releases :
    (u i : ℕ) (db : Db) (o : Order)
    → IsSolvent db
    → find_own u i db.orders ≡ some o
    → is_open o.status ≡ true
    → (db' : Db) × (cancel_order u i db ≡ (ok (cancel_row o), db'))
      × (db'.orders ≡ write_order o.id cancel_row db.orders)
      × ((k : WalletKey)
          → let held = reserved_by db.pairs k o in Effect db db' k (pos 0) held (pos 0 -ℤ held))
cancel_order-releases u i db o s own t =
    let (p, price, l, owner) = own-IsListed u i db o s own t in
    let (db', runs, orders, moves, solvent) = cancel_order_returns db u i o p price own l owner in
    (
      db',
      runs,
      orders,
      λ k. rw (reserved_by_open db.pairs k o p price l.unfilled l.paired l.priced) (moves k),
    )

-- Cancelling on solvent tables either returns on solvent tables in which every order is as it was,
-- or open before and filled or cancelled, or raises and changes nothing.
pub cancel_order-IsAtomic : (u i : ℕ) (db : Db) → IsSolvent db → IsAtomic db (cancel_order u i db)
unfolding cancel_order
cancel_order-IsAtomic u i db s = elim (Option-cases (find_own u i db.orders)) [
  | inl e ↦ simp e refl
  | inr (o, own) ↦ elim (Bool-cases (is_open o.status)) [
    | inr f ↦ simp (own, f) refl
    | inl t ↦
        let (p, price, l, owner) = own-IsListed u i db o s own t in
        let (db', runs, orders, moves, solvent) =
          cancel_order_returns db u i o p price own l owner in
        subst (IsAtomic db) (sym runs) (record {
          solvent = solvent s;
          advances =
              rw orders
                (Advances-write_order db.orders cancel_row o (λ x. refl) l.listed (cancels t refl));
        })
  ]
]
