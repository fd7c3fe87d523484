-- ===== src/Routers/Listings.antt =====
-- The listing endpoints of backend/app/routers/orders.py, wallets.py and notifications.py: their
-- query parameters, and the responses that they build. An amount is kept as its decimal.
use crypto_exchange_pro.Prelude.{
  ℕ, ⊤, String, Option, none, some, List, ◌&&◌, leb, not, if◌then◌else◌, map,
}
use text.Mathlib.Text.{◌==◌ as str_eq}
use crypto_exchange_pro.Prelude.Decimal.{Decimal}
use crypto_exchange_pro.Models.{
  Order, OrderSide, OrderType, OrderStatus, buy, sell, market, limit, take_profit, stop_loss, open_,
  filled, partially_filled, cancelled, rejected, TradingPair, Trade, Notification,
}
use crypto_exchange_pro.Session.{Action, Error, ◌>>=◌, ◌>>◌, pure, gets, or_raise, raise_if}
use crypto_exchange_pro.Tables.Orders.{find_pair}
use crypto_exchange_pro.Trading.Listing.{list_orders, list_trades}
use crypto_exchange_pro.NotificationService.{list_notifications}
use crypto_exchange_pro.Routers.Orders.{parse_side, parse_type}

unfoldable pub side_value : OrderSide → String
side_value buy = "buy"
side_value sell = "sell"

unfoldable pub type_value : OrderType → String
type_value market = "market"
type_value limit = "limit"
type_value take_profit = "take_profit"
type_value stop_loss = "stop_loss"

unfoldable pub status_value : OrderStatus → String
status_value open_ = "open"
status_value filled = "filled"
status_value partially_filled = "partially_filled"
status_value cancelled = "cancelled"
status_value rejected = "rejected"

-- `Literal["open", "filled", "cancelled"]`.
unfoldable pub parse_status : String → Option OrderStatus
parse_status s =
    if str_eq s "open"
    then some open_
    else if str_eq s "filled"
    then some filled
    else if str_eq s "cancelled"
    then some cancelled
    else none

pub record OrderResponse : Type 0 where
  pub id : ℕ
  pub pair : String
  pub side : String
  pub type : String
  pub price : Option Decimal
  pub qty : Decimal
  pub filled_qty : Decimal
  pub avg_fill_price : Option Decimal
  pub status : String
  pub created_at : ℕ

-- `pair.symbol if pair is not None else "?"`, and "?" for an empty symbol.
abbrev pub symbol_or_unknown : Option TradingPair → String
symbol_or_unknown none = "?"
symbol_or_unknown (some pair) = if str_eq pair.symbol "" then "?" else pair.symbol

unfoldable pub to_order_response : Order → Option TradingPair → OrderResponse
to_order_response o pair = record {
  id = o.id;
  pair = symbol_or_unknown pair;
  side = side_value o.side;
  type = type_value o.type;
  price = o.price;
  qty = o.qty;
  filled_qty = o.filled_qty;
  avg_fill_price = o.avg_fill_price;
  status = status_value o.status;
  created_at = o.created_at;
}

-- A parameter that is given has to be one of the literals.
abbrev pub parameter : {A : Type 0} → (String → Option A) → Option String → Action (Option A)
parameter parse none = pure none
parameter parse (some s) = or_raise (parse s) Error.query_invalid >>= λ a. pure (some a)

-- `Query(50, ge=1, le=most)`.
abbrev pub limit_within : ℕ → ℕ → Action ⊤
limit_within most n = raise_if (not (leb 1 n && leb n most)) Error.query_invalid

pub record ListQuery : Type 0 where
  pub limit : ℕ
  pub offset : ℕ
  pub status : Option String
  pub pair : Option String
  pub side : Option String
  pub type : Option String
  pub from_time : Option ℕ
  pub to : Option ℕ

unfoldable pub my_orders : ℕ → ListQuery → Action (List OrderResponse)
my_orders user_id q = do
  limit_within 200 q.limit
  status ← parameter parse_status q.status
  side ← parameter parse_side q.side
  type ← parameter parse_type q.type
  orders ← list_orders user_id q.limit q.offset (record {
    order_status = status;
    pair_symbol = q.pair;
    side = side;
    order_type = type;
    date_from = q.from_time;
    date_to = q.to;
  })
  gets (λ db. map (λ (o : Order). to_order_response o (find_pair o.pair_id db.pairs)) orders)

unfoldable pub my_trades : ℕ → ListQuery → Action (List (Trade × Option String))
my_trades user_id q = do
  limit_within 200 q.limit
  side ← parameter parse_side q.side
  list_trades user_id q.limit q.offset
      (record { pair_symbol = q.pair; side = side; date_from = q.from_time; date_to = q.to })

unfoldable pub get_notifications : ℕ → ℕ → ℕ → Action (List Notification)
get_notifications user_id n offset = limit_within 100 n >> list_notifications user_id n offset
