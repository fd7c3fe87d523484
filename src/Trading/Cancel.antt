-- ===== src/Trading/Cancel.antt =====
-- Cancelling an order (backend/app/services/trading.py, lines 378 to 401).
use crypto_exchange_pro.Prelude.{
  ℕ, Option, none, some, ◌&&◌, ◌==◌, not, List, [], ◌∷◌, if◌then◌else◌,
}
use crypto_exchange_pro.Models.{Order, cancelled, is_open}
use crypto_exchange_pro.Session.{Action, Error, ◌>>=◌, ◌>>◌, pure, gets, or_raise, raise_if, modify}
use crypto_exchange_pro.Tables.Orders.{find_pair, write_order}
use crypto_exchange_pro.Trading.Limit.{unfreeze_limit, notify_order_cancelled}

-- `Order.id == order_id, Order.user_id == user_id`.
unfoldable pub find_own : ℕ → ℕ → List Order → Option Order
find_own user_id id [] = none
find_own user_id id (o ∷ os) =
    if o.id == id && o.user_id == user_id then some o else find_own user_id id os

abbrev pub cancel_row : Order → Order
cancel_row o = record o { status = cancelled }

unfoldable pub cancel_order : ℕ → ℕ → Action Order
unfolding find_own unfreeze_limit notify_order_cancelled
cancel_order user_id order_id = do
  order ← or_raise (← gets (λ db. find_own user_id order_id db.orders)) Error.order_not_found
  raise_if (not (is_open order.status)) Error.order_not_open
  pair ← or_raise (← gets (λ db. find_pair order.pair_id db.pairs)) Error.missing_row
  price ← or_raise order.price Error.invalid_decimal
  unfreeze_limit user_id pair order.side order.qty price
  modify (λ db. record db { orders = write_order order.id cancel_row db.orders })
  notify_order_cancelled (cancel_row order) pair
  pure (cancel_row order)
