-- ===== src/Trading/Place.antt =====
-- Placing an order (backend/app/services/trading.py, lines 53 to 65 and 254 to 375): a market
-- order trades at once at the live price, any other reserves funds and stays open; both sweep
-- the user's open orders afterwards, and an error on the way rolls everything back.
use crypto_exchange_pro.Prelude.{
  ℕ, suc, ⊤, String, Option, none, some, [], ◌∷◌, ◌++◌, ◌+◌, ◌*◌, ◌/◌, not, if◌then◌else◌,
}
use crypto_exchange_pro.Prelude.Int.{pos, negsuc, neg_ℤ, leb_ℤ}
use crypto_exchange_pro.Prelude.Decimal.{Decimal, ◌·◌}
use crypto_exchange_pro.Models.{
  Order, OrderSide, OrderType, buy, sell, market, open_, TradingPair, spot, trade_buy, trade_sell,
  is_market,
}
use crypto_exchange_pro.Session.{
  Db, Action, Error, ok, ◌>>=◌, ◌>>◌, pure, gets, or_raise, raise, raise_if, or_rollback, modify,
}
use crypto_exchange_pro.Tables.Orders.{find_order, find_symbol, write_order}
use crypto_exchange_pro.WalletService.{
  get_or_create_wallet, assign, cover, add_transaction, credit_funds, debit_funds,
}
use crypto_exchange_pro.Market.{Feed, get_live_price}
use crypto_exchange_pro.Trading.Limit.{freeze_limit, record_fill}
use crypto_exchange_pro.Trading.Sweep.{sweep_open_orders, check_conditional_orders}

abbrev pub active_pair : Option TradingPair → Action TradingPair
active_pair none = raise Error.pair_not_found
active_pair (some pair) = raise_if (not pair.is_active) Error.pair_not_found >> pure pair

unfoldable pub get_pair : String → Action TradingPair
get_pair symbol = do active_pair (← gets (λ db. find_symbol symbol db.pairs))

abbrev pub new_order : ℕ → ℕ → ℕ → TradingPair → OrderSide → OrderType → Decimal → Decimal → Order
new_order id now user_id pair side type qty price = record {
  id = id;
  user_id = user_id;
  pair_id = pair.id;
  side = side;
  type = type;
  price = some price;
  qty = qty;
  filled_qty = pos 0;
  avg_fill_price = none;
  status = open_;
  created_at = now;
}

unfoldable pub add_order :
    ℕ → TradingPair → OrderSide → OrderType → Decimal → Decimal → Action Order
add_order user_id pair side type qty price db =
    let order : Order = new_order db.next_id db.now user_id pair side type qty price in
    (ok order, record db { orders = db.orders ++ order ∷ []; next_id = db.next_id + 1 })

-- The money side of a market order.
unfoldable pub settle_market : ℕ → TradingPair → OrderSide → Decimal → Decimal → Action ⊤
unfolding get_or_create_wallet assign add_transaction
settle_market user_id pair buy qty notional = do
  quote ← get_or_create_wallet user_id pair.quote_asset_id spot
  cover quote notional Error.insufficient_quote
  assign quote (debit_funds notional)
  base ← get_or_create_wallet user_id pair.base_asset_id spot
  assign base (credit_funds qty)
  add_transaction quote trade_buy notional (neg_ℤ notional) none
  add_transaction base trade_buy qty qty none
settle_market user_id pair sell qty notional = do
  base ← get_or_create_wallet user_id pair.base_asset_id spot
  cover base qty Error.insufficient_base
  assign base (debit_funds qty)
  quote ← get_or_create_wallet user_id pair.quote_asset_id spot
  assign quote (credit_funds notional)
  add_transaction base trade_sell qty (neg_ℤ qty) none
  add_transaction quote trade_sell notional notional none

unfoldable pub place_market : Feed → ℕ → TradingPair → OrderSide → Decimal → Action Order
unfolding add_order settle_market record_fill get_live_price
place_market feed user_id pair side qty = do
  price ← get_live_price feed pair.symbol
  order ← add_order user_id pair side market qty price
  settle_market user_id pair side qty (qty · price)
  record_fill order pair price qty (qty · price)
  pure order

unfoldable pub place_limit :
    ℕ → TradingPair → OrderSide → OrderType → Decimal → Decimal → Action Order
unfolding add_order freeze_limit
place_limit user_id pair side type qty price = do
  order ← add_order user_id pair side type qty price
  freeze_limit user_id pair side qty price
  pure order

abbrev pub positive_price : Option Decimal → Action Decimal
positive_price none = raise Error.price_not_positive
positive_price (some price) = raise_if (leb_ℤ price (pos 0)) Error.price_not_positive >> pure price

-- The two `try` blocks: an order, then the sweeps.
unfoldable pub then_sweep : Feed → ℕ → Action Order → Action Order
then_sweep feed user_id place = do
  order ← place
  sweep_open_orders feed user_id
  check_conditional_orders feed (some user_id)
  pure order

-- A column that keeps multiples of `unit`: half a unit and more is rounded away from zero.
unfoldable pub round_to : ℕ → Decimal → Decimal
round_to unit (pos n) = pos (((n + unit / 2) / unit) * unit)
round_to unit (negsuc n) = neg_ℤ (pos (((suc n + unit / 2) / unit) * unit))

-- `Numeric(30, 8)`.
abbrev pub to_column : Decimal → Decimal
to_column x = round_to 100000000 x

abbrev pub price_column : Option Decimal → Option Decimal
price_column none = none
price_column (some price) = some (to_column price)

-- The row as its columns hold it.
abbrev pub as_stored : Order → Order
as_stored o = record o {
  price = price_column o.price;
  qty = to_column o.qty;
  filled_qty = to_column o.filled_qty;
  avg_fill_price = price_column o.avg_fill_price;
}

-- `db.refresh(order)`. Until then the session's object has the amounts that it was given; now it is read
-- again as the table's columns hold it.
unfoldable pub refresh_order : Order → Action Order
refresh_order order = do
  modify (λ db. record db { orders = write_order order.id as_stored db.orders })
  or_raise (← gets (λ db. find_order order.id db.orders)) Error.missing_row

unfoldable pub place_on :
    Feed → Db → ℕ → TradingPair → OrderSide → OrderType → Decimal → Option Decimal → Action Order
place_on feed start user_id pair side type qty price =
    if is_market type
    then (λ db.
        or_rollback start (then_sweep feed user_id (place_market feed user_id pair side qty) db))
    else (do
      limit_price ← positive_price price
      λ db.
          or_rollback start
            (then_sweep feed user_id (place_limit user_id pair side type qty limit_price) db))

unfoldable pub place_order :
    Feed → ℕ → String → OrderSide → OrderType → Decimal → Option Decimal → Action Order
unfolding get_pair place_on refresh_order
place_order feed user_id symbol side type qty price start =
    (do
      raise_if (leb_ℤ qty (pos 0)) Error.quantity_not_positive
      pair ← get_pair symbol
      order ← place_on feed start user_id pair side type qty price
      refresh_order order)
      start
