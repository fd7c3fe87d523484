-- ===== src/Solvency/Stored.antt =====
-- The row of an order when it is read again (backend/app/services/trading.py, line 302; the columns of
-- backend/app/models/order.py), on solvent tables.
use crypto_exchange_pro.Prelude.{
  ℕ, ◌≡◌, refl, sym, subst, ◌∙◌, true, false, Option, none, some, List, [], ◌∷◌, ◌==◌, All, arith,
  Bool-cases, inl, inr,
}
use mathlib.Core.Bool.{false≢true}
use crypto_exchange_pro.Prelude.Int.{◌+ℤ◌, int_laws}
use crypto_exchange_pro.Prelude.Decimal.{Decimal, ◌·◌}
use crypto_exchange_pro.Models.{WalletKey, Order, OrderType, TradingPair, is_open, is_market}
use crypto_exchange_pro.Session.{Db}
use crypto_exchange_pro.Tables.Orders.{
  find_order, write_order, order_ids, order_ids-write_order, IsFresh, find_order-fresh,
}
use crypto_exchange_pro.Trading.Place.{round_to, to_column, price_column, as_stored}
use crypto_exchange_pro.Routers.Orders.{PlaceOrderRequest, parse_type}
use crypto_exchange_pro.Exchange.{Event, places}
use crypto_exchange_pro.Lifecycle.{Advance, stays, fills, cancels, Advances, find_order-write_order}
use crypto_exchange_pro.Solvency.Claims.{reserved, reserved_by, reserved-write_order}
use crypto_exchange_pro.Solvency.Fills.{reserved_by_closed}
use crypto_exchange_pro.Solvency.Invariant.{IsSound, IsSolvent}

-- An amount that a wallet's column, `Numeric(40, 12)`, holds as it is.
abbrev pub FitsWallet : Option Decimal → Decimal → Type 0
FitsWallet none qty = Unit
FitsWallet (some price) qty = round_to 10000 (qty · price) ≡ qty · price

-- The amounts of an order that is to wait have no more than 8 decimals, and the amount that a purchase
-- freezes has no more than 12: the columns hold them as they are.
abbrev pub FitsColumns : OrderType → Decimal → Option Decimal → Type 0
FitsColumns type qty price =
    is_market type ≡ false
    → (to_column qty ≡ qty) × (price_column price ≡ price) × FitsWallet price qty

-- The row of an open order is held as it is.
abbrev pub IsExact : Order → Type 0
IsExact o = is_open o.status ≡ true → (to_column o.qty ≡ o.qty) × (price_column o.price ≡ o.price)

pub IsExact-Advance : (o o' : Order) → Advance o o' → IsExact o → IsExact o'
IsExact-Advance o o' (stays e) h = subst IsExact (sym e) h
IsExact-Advance o o' (fills price t e) h = subst IsExact (sym e) (λ u. absurd (false≢true u))
IsExact-Advance o o' (cancels t e) h = subst IsExact (sym e) (λ u. absurd (false≢true u))

reserved_by-stored :
    (pairs : List TradingPair) (k : WalletKey) (o : Order)
    → IsExact o
    → reserved_by pairs k (as_stored o) ≡ reserved_by pairs k o
unfolding reserved_by
reserved_by-stored pairs k o exact = elim (Bool-cases (is_open o.status)) [
  | inr f ↦ reserved_by_closed pairs k (as_stored o) f ∙ sym (reserved_by_closed pairs k o f)
  | inl t ↦ let (qty, price) = exact t in held qty price
]
  where
    held :
        to_column o.qty ≡ o.qty
        → price_column o.price ≡ o.price
        → reserved_by pairs k (as_stored o) ≡ reserved_by pairs k o
    held qty price = rw (qty, price) refl

All-write_found {κ} :
    (P : Order → Type κ) (i : ℕ) (f : Order → Order) (os : List Order)
    → ((o : Order) → find_order i os ≡ some o → P o → P (f o))
    → All P os
    → All P (write_order i f os)
unfolding write_order find_order
All-write_found P i f [] h all = tt
All-write_found P i f (o ∷ os) h all = elim (Bool-cases (o.id == i)) [
  | inl e ↦ rw e ((rw e at h) o refl all.0, all.1)
  | inr e ↦ rw e (all.0, All-write_found P i f os (rw e at h) all.1)
]

IsSound-stored :
    (pairs : List TradingPair) (o : Order)
    → IsExact o
    → IsSound pairs o
    → IsSound pairs (as_stored o)
IsSound-stored pairs o exact sound t =
    let (p, price, paired, priced, qty, nonneg, kind) = sound t in
    let (qty_same, price_same) = exact t in
    (p, price, paired, price_same ∙ priced, rw qty_same qty, nonneg, kind)

pub stored-IsSolvent :
    (db : Db) (i : ℕ) (o : Order)
    → find_order i db.orders ≡ some o
    → IsExact o
    → IsSolvent db
    → IsSolvent (record db { orders = write_order i as_stored db.orders })
stored-IsSolvent db i o found exact s = record {
  backed = λ k.
      let sum = reserved-write_order db.pairs k i as_stored db.orders o found in
      let same = reserved_by-stored db.pairs k o exact in
      let held : reserved db.pairs k (write_order i as_stored db.orders)
          ≡ reserved db.pairs k db.orders =
        cancel_same _ _ _ _ sum same in
      rw held (s.backed k);
  sound =
      All-write_found (IsSound db.pairs) i as_stored db.orders
        (λ r e sound.
          let same : o ≡ r = cc in IsSound-stored db.pairs r (subst IsExact same exact) sound)
        s.sound;
  fresh = rw (order_ids-write_order i as_stored db.orders (λ x. refl)) s.fresh;
  keyed = s.keyed;
}
  where
    cancel_same : (a b x y : Decimal) → a +ℤ x ≡ b +ℤ y → y ≡ x → a ≡ b
    cancel_same a b x y sum same = grind int_laws

-- The rows of earlier orders are not touched.
pub stored-Advances :
    (start os : List Order) (i : ℕ)
    → IsFresh i (order_ids start)
    → Advances start os
    → Advances start (write_order i as_stored os)
stored-Advances start os i fresh adv j o found =
    let (o', found', step) = adv j o found in
    let other : (j == i) ≡ false = ground (arith, find_order-fresh i j start o fresh found) in
    (o', find_order-write_order j i as_stored os o' (λ x. refl) found' ∙ rw other refl, step)

-- A request for an order of such amounts.
abbrev pub FitsRequest : PlaceOrderRequest → Type 0
FitsRequest r = (type : OrderType) → parse_type r.type ≡ some type → FitsColumns type r.qty r.price

abbrev pub FitsEvent : Event → Type 0
FitsEvent (places u r) = FitsRequest r
FitsEvent _ = Unit
