-- ===== src/Solvency/Fills.antt =====
-- Filling an order (backend/app/services/trading.py, lines 120 to 164) on solvent tables.
use crypto_exchange_pro.Prelude.{ℕ, ◌≡◌, refl, sym, ap, ◌∙◌, true, false, some, List, arith}
use mathlib.Core.Bool.{false≢true}
use crypto_exchange_pro.Prelude.Int.{pos, ◌+ℤ◌, ◌-ℤ◌, ◌≤ℤ◌, int_laws}
use crypto_exchange_pro.Prelude.Decimal.{Decimal, ◌·◌, ·-nonneg}
use crypto_exchange_pro.Models.{WalletKey, Order, OrderSide, buy, sell, TradingPair, is_open}
use crypto_exchange_pro.Session.{Db, ok}
use crypto_exchange_pro.Tables.Orders.{
  find_pair, find_order, write_order, All-write_order, order_ids-write_order, IsFresh-mono,
}
use crypto_exchange_pro.Trading.Limit.{execute_limit_fill, fill_order}
use crypto_exchange_pro.Solvency.Claims.{spent, received, reserved_by, reserved-write_order}
use crypto_exchange_pro.Solvency.Invariant.{IsSound, IsSolvent}
use crypto_exchange_pro.Solvency.Effects.{Effect, SameBook, IsBacked-Changes, settle_limit-Runs}

pub received-nonneg :
    (k : WalletKey) (u : ℕ) (p : TradingPair) (side : OrderSide) (qty notional : Decimal)
    → pos 0 ≤ℤ qty
    → pos 0 ≤ℤ notional
    → pos 0 ≤ℤ received k u p side qty notional
received-nonneg k u p buy qty notional hq hn = ground arith
received-nonneg k u p sell qty notional hq hn = ground arith

pub spent-nonneg :
    (k : WalletKey) (u : ℕ) (p : TradingPair) (side : OrderSide) (qty notional : Decimal)
    → pos 0 ≤ℤ qty
    → pos 0 ≤ℤ notional
    → pos 0 ≤ℤ spent k u p side qty notional
spent-nonneg k u p buy qty notional hq hn = ground arith
spent-nonneg k u p sell qty notional hq hn = ground arith

-- The reservation of an open order, whose pair and price are known.
pub reserved_by_open :
    (pairs : List TradingPair) (k : WalletKey) (o : Order) (p : TradingPair) (price : Decimal)
    → is_open o.status ≡ true
    → find_pair o.pair_id pairs ≡ some p
    → o.price ≡ some price
    → reserved_by pairs k o ≡ spent k o.user_id p o.side o.qty (o.qty · price)
unfolding reserved_by
reserved_by_open pairs k o p price unfilled pair priced = rw (unfilled, pair, priced)

-- An order that is not open reserves nothing.
pub reserved_by_closed :
    (pairs : List TradingPair) (k : WalletKey) (o : Order)
    → is_open o.status ≡ false
    → reserved_by pairs k o ≡ pos 0
unfolding reserved_by
reserved_by_closed pairs k o closed = rw closed

-- What is known of an order that is about to be filled or cancelled.
pub record IsListed (db : Db) (o : Order) (p : TradingPair) (price : Decimal) : Type 0 where
  pub listed : find_order o.id db.orders ≡ some o
  pub unfilled : is_open o.status ≡ true
  pub paired : find_pair o.pair_id db.pairs ≡ some p
  pub priced : o.price ≡ some price
  pub qty_nonneg : pos 0 ≤ℤ o.qty
  pub price_nonneg : pos 0 ≤ℤ price

release :
    (before after old new out : Decimal)
    → after +ℤ old ≡ before +ℤ new
    → old ≡ out
    → new ≡ pos 0
    → after ≡ before +ℤ (pos 0 -ℤ out)
release before after old new out sum was is = grind int_laws

add_nonneg : (a b : Decimal) → pos 0 ≤ℤ a → pos 0 ≤ℤ b → pos 0 ≤ℤ a +ℤ b
add_nonneg a b ha hb = omega int_laws

-- An order's row is closed while its reservation leaves the wallets: the invariant is kept.
pub close-IsSolvent :
    (db db' : Db) (o : Order) (p : TradingPair) (price : Decimal) (f : Order → Order)
    (balance available : WalletKey → Decimal)
    → IsListed db o p price
    → ((x : Order) → ((f x).id ≡ x.id) × (is_open (f x).status ≡ false))
    → SameBook db db'
    → ((k : WalletKey) → pos 0 ≤ℤ available k)
    → ((k : WalletKey)
        → let out = spent k o.user_id p o.side o.qty (o.qty · price) in
          (balance k ≡ available k -ℤ out)
          × Effect db db' k (balance k) (available k) (pos 0 -ℤ out))
    → IsSolvent db
    → IsSolvent (record db' { orders = write_order o.id f db'.orders })
close-IsSolvent db db' o p price f balance available l closes same gains moves s = record {
  backed = λ k.
      rw (same.orders, same.pairs)
        (IsBacked-Changes _ _ _ _ _ _ _ _ _ (s.backed k) (moves k).1
          (rw (moves k).0 (omega int_laws))
          (release _ _ _ _ _ (reserved-write_order db.pairs k o.id f db.orders o l.listed)
            (reserved_by_open db.pairs k o p price l.unfilled l.paired l.priced)
            (reserved_by_closed db.pairs k (f o) (closes o).1))
          (add_nonneg _ _ (s.backed k).covered (gains k)));
  sound =
      rw (same.orders, same.pairs)
        (All-write_order (IsSound db.pairs) o.id f db.orders
          (λ x h. absurd (false≢true (sym (closes x).1 ∙ h))) s.sound);
  fresh =
      rw (same.orders, same.next_id)
        (rw (order_ids-write_order o.id f db.orders (λ x. (closes x).0)) s.fresh);
  keyed = rw same.pairs s.keyed;
}

pub execute_limit_fill-IsSolvent :
    (db : Db) (o : Order) (p : TradingPair) (price : Decimal)
    → IsListed db o p price
    → IsSolvent db
    → ((execute_limit_fill o p db).0 ≡ ok tt) × IsSolvent (execute_limit_fill o p db).1
unfolding execute_limit_fill
execute_limit_fill-IsSolvent db o p price l s =
    let out = λ (k : WalletKey). spent k o.user_id p o.side o.qty (o.qty · price) in
    let back = λ (k : WalletKey). received k o.user_id p o.side o.qty (o.qty · price) in
    let (db', runs, same, moves) = settle_limit-Runs db o.user_id p o.side o.qty (o.qty · price) in
    let closed =
      close-IsSolvent db db' o p price (fill_order o.qty price) (λ k. back k -ℤ out k) back l
        (λ x. (refl, refl)) same
        (λ k.
          received-nonneg k o.user_id p o.side o.qty (o.qty · price) l.qty_nonneg
            (·-nonneg o.qty price l.qty_nonneg l.price_nonneg))
        (λ k. (refl, moves k)) s in
    rw (l.priced, runs)
      (
        refl,
        record {
          backed = closed.backed;
          sound = closed.sound;
          fresh = IsFresh-mono db'.next_id _ _ (omega arith) closed.fresh;
          keyed = closed.keyed;
        },
      )

-- A fill rewrites the order's row alone.
pub execute_limit_fill-orders :
    (db : Db) (o : Order) (p : TradingPair) (price : Decimal)
    → o.price ≡ some price
    → let db' = (execute_limit_fill o p db).1 in
      (db'.orders ≡ write_order o.id (fill_order o.qty price) db.orders) × (db'.pairs ≡ db.pairs)
unfolding execute_limit_fill
execute_limit_fill-orders db o p price priced =
    let (db', runs, same, moves) = settle_limit-Runs db o.user_id p o.side o.qty (o.qty · price) in
    rw (priced, runs) (ap (write_order o.id (fill_order o.qty price)) same.orders, same.pairs)
