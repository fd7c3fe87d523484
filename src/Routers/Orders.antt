-- ===== src/Routers/Orders.antt =====
-- backend/app/routers/orders.py and the validators of backend/app/schemas/order.py.
use crypto_exchange_pro.Prelude.{
  ℕ, String, Bool, Option, none, some, ◌&&◌, not, if◌then◌else◌, is_some,
}
use text.Mathlib.Text.{◌==◌ as str_eq}
use crypto_exchange_pro.Prelude.Int.{pos, leb_ℤ}
use crypto_exchange_pro.Prelude.Decimal.{Decimal}
use crypto_exchange_pro.Models.{
  Order, OrderSide, OrderType, buy, sell, market, limit, take_profit, stop_loss, is_market,
}
use crypto_exchange_pro.Session.{Action, Error, ◌>>=◌, ◌>>◌, or_raise, raise_if, pure}
use crypto_exchange_pro.Market.{Feed}
use crypto_exchange_pro.Trading.Place.{place_order}
use crypto_exchange_pro.Trading.Cancel.{cancel_order}
use crypto_exchange_pro.Routers.Transaction.{commits}

pub record PlaceOrderRequest : Type 0 where
  pub pair : String
  pub side : String
  pub qty : Decimal
  pub type : String
  pub price : Option Decimal

unfoldable pub parse_side : String → Option OrderSide
parse_side s = if str_eq s "buy" then some buy else if str_eq s "sell" then some sell else none

unfoldable pub parse_type : String → Option OrderType
parse_type s =
    if str_eq s "market"
    then some market
    else if str_eq s "limit"
    then some limit
    else if str_eq s "take_profit"
    then some take_profit
    else if str_eq s "stop_loss"
    then some stop_loss
    else none

abbrev pub is_given_nonpositive : Option Decimal → Bool
is_given_nonpositive none = Bool.false
is_given_nonpositive (some price) = leb_ℤ price (pos 0)

-- The field constraints and the model validator.
unfoldable pub validate_order : PlaceOrderRequest → Action OrderType
validate_order request = do
  raise_if (leb_ℤ request.qty (pos 0)) Error.quantity_invalid
  raise_if (is_given_nonpositive request.price) Error.price_invalid
  type ← or_raise (parse_type request.type) Error.invalid_type
  raise_if (not (is_market type) && not (is_some request.price)) Error.price_required
  pure type

unfoldable pub place_order_endpoint : Feed → ℕ → PlaceOrderRequest → Action Order
unfolding commits
place_order_endpoint feed user_id request = do
  type ← validate_order request
  side ← or_raise (parse_side request.side) Error.invalid_side
  commits (place_order feed user_id request.pair side type request.qty request.price)

unfoldable pub cancel_my_order : ℕ → ℕ → Action Order
unfolding commits
cancel_my_order user_id order_id = commits (cancel_order user_id order_id)
