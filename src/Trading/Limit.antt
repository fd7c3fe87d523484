-- ===== src/Trading/Limit.antt =====
-- Funds reserved, released and spent by limit, take-profit and stop-loss orders
-- (backend/app/services/trading.py, lines 23 to 164), and the records that a fill writes.
use crypto_exchange_pro.Prelude.{ℕ, ⊤, false, Option, some, ◌∷◌, [], ◌++◌, ◌+◌}
use crypto_exchange_pro.Prelude.Int.{◌+ℤ◌, ◌-ℤ◌, neg_ℤ}
use crypto_exchange_pro.Prelude.Decimal.{Decimal, ◌·◌}
use crypto_exchange_pro.Models.{
  Order, OrderSide, buy, sell, filled, TradingPair, Kind, order_filled, order_cancelled, Funds,
  spot, trade_buy, trade_sell,
}
use crypto_exchange_pro.Session.{Action, Error, ◌>>=◌, ◌>>◌, or_raise, modify}
use crypto_exchange_pro.Tables.Orders.{write_order}
use crypto_exchange_pro.WalletService.{get_or_create_wallet, assign, cover, add_transaction}

unfoldable pub create_notification : Order → TradingPair → Kind → Option Decimal → Action ⊤
create_notification order pair kind price = modify (λ db. record db {
  notifications =
      db.notifications
      ++ record {
        id = db.next_id;
        user_id = order.user_id;
        kind = kind;
        order_type = order.type;
        side = order.side;
        symbol = pair.symbol;
        price = price;
        is_read = false;
        created_at = db.now;
      }
        ∷ [];
  next_id = db.next_id + 1;
})

-- `order` carries the fill's price here.
unfoldable pub notify_order_filled : Order → TradingPair → Action ⊤
unfolding create_notification
notify_order_filled order pair = create_notification order pair order_filled order.avg_fill_price

unfoldable pub notify_order_cancelled : Order → TradingPair → Action ⊤
unfolding create_notification
notify_order_cancelled order pair = create_notification order pair order_cancelled order.price

abbrev pub freeze_funds : Decimal → Funds → Funds
freeze_funds x w = record w { available = w.available -ℤ x; frozen = w.frozen +ℤ x }

abbrev pub unfreeze_funds : Decimal → Funds → Funds
unfreeze_funds x w = record w { available = w.available +ℤ x; frozen = w.frozen -ℤ x }

abbrev pub spend_frozen : Decimal → Funds → Funds
spend_frozen x w = record w { balance = w.balance -ℤ x; frozen = w.frozen -ℤ x }

abbrev pub receive_funds : Decimal → Funds → Funds
receive_funds x w = record w { balance = w.balance +ℤ x; available = w.available +ℤ x }

unfoldable pub freeze_limit : ℕ → TradingPair → OrderSide → Decimal → Decimal → Action ⊤
unfolding get_or_create_wallet assign
freeze_limit user_id pair buy qty limit_price = do
  quote ← get_or_create_wallet user_id pair.quote_asset_id spot
  cover quote (qty · limit_price) Error.insufficient_quote
  assign quote (freeze_funds (qty · limit_price))
freeze_limit user_id pair sell qty limit_price = do
  base ← get_or_create_wallet user_id pair.base_asset_id spot
  cover base qty Error.insufficient_base
  assign base (freeze_funds qty)

unfoldable pub unfreeze_limit : ℕ → TradingPair → OrderSide → Decimal → Decimal → Action ⊤
unfolding get_or_create_wallet assign
unfreeze_limit user_id pair buy qty limit_price = do
  quote ← get_or_create_wallet user_id pair.quote_asset_id spot
  assign quote (unfreeze_funds (qty · limit_price))
unfreeze_limit user_id pair sell qty limit_price = do
  base ← get_or_create_wallet user_id pair.base_asset_id spot
  assign base (unfreeze_funds qty)

abbrev pub fill_order : Decimal → Decimal → Order → Order
fill_order qty price o = record o { filled_qty = qty; avg_fill_price = some price; status = filled }

unfoldable pub add_trade : Order → TradingPair → Decimal → Decimal → Decimal → Action ⊤
add_trade order pair price qty notional = modify (λ db. record db {
  trades =
      db.trades
      ++ record {
        order_id = order.id;
        user_id = order.user_id;
        pair_id = pair.id;
        side = order.side;
        price = price;
        qty = qty;
        notional = notional;
        created_at = db.now;
      }
        ∷ [];
})

-- The order's row filled, its trade and its notification.
unfoldable pub record_fill : Order → TradingPair → Decimal → Decimal → Decimal → Action ⊤
unfolding add_trade notify_order_filled
record_fill order pair price qty notional = do
  modify (λ db. record db { orders = write_order order.id (fill_order qty price) db.orders })
  add_trade order pair price qty notional
  notify_order_filled (fill_order qty price order) pair

-- The money side of a fill out of reserved funds.
unfoldable pub settle_limit : ℕ → TradingPair → OrderSide → Decimal → Decimal → Action ⊤
unfolding get_or_create_wallet assign add_transaction
settle_limit user_id pair buy qty notional = do
  quote ← get_or_create_wallet user_id pair.quote_asset_id spot
  base ← get_or_create_wallet user_id pair.base_asset_id spot
  assign quote (spend_frozen notional)
  assign base (receive_funds qty)
  add_transaction quote trade_buy notional (neg_ℤ notional) Option.none
  add_transaction base trade_buy qty qty Option.none
settle_limit user_id pair sell qty notional = do
  base ← get_or_create_wallet user_id pair.base_asset_id spot
  quote ← get_or_create_wallet user_id pair.quote_asset_id spot
  assign base (spend_frozen qty)
  assign quote (receive_funds notional)
  add_transaction base trade_sell qty (neg_ℤ qty) Option.none
  add_transaction quote trade_sell notional notional Option.none

unfoldable pub execute_limit_fill : Order → TradingPair → Action ⊤
unfolding settle_limit record_fill
execute_limit_fill order pair = do
  fill_price ← or_raise order.price Error.invalid_decimal
  settle_limit order.user_id pair order.side order.qty (order.qty · fill_price)
  record_fill order pair fill_price order.qty (order.qty · fill_price)
