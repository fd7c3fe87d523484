-- ===== src/Routers/Literals.antt =====
-- The strings of the enumerations (backend/app/routers/orders.py, backend/app/schemas/order.py).
use crypto_exchange_pro.Prelude.{◌≡◌, refl, some}
use crypto_exchange_pro.Models.{
  OrderSide, OrderType, buy, sell, market, limit, take_profit, stop_loss, Order, TradingPair,
}
use crypto_exchange_pro.Prelude.{Option}
use crypto_exchange_pro.Routers.Orders.{parse_side, parse_type}
use crypto_exchange_pro.Routers.Listings.{side_value, type_value, to_order_response}

parse_side-side_value : (s : OrderSide) → parse_side (side_value s) ≡ some s
unfolding parse_side side_value
parse_side-side_value buy = refl
parse_side-side_value sell = refl

parse_type-type_value : (t : OrderType) → parse_type (type_value t) ≡ some t
unfolding parse_type type_value
parse_type-type_value market = refl
parse_type-type_value limit = refl
parse_type-type_value take_profit = refl
parse_type-type_value stop_loss = refl

-- The side and type that an order's response shows are strings that a request for an order
-- accepts, and they stand for the order's side and type.
pub to_order_response_parses :
    (o : Order) (pair : Option TradingPair)
    → (parse_side (to_order_response o pair).side ≡ some o.side)
      × (parse_type (to_order_response o pair).type ≡ some o.type)
unfolding to_order_response
to_order_response_parses o pair = (parse_side-side_value o.side, parse_type-type_value o.type)
