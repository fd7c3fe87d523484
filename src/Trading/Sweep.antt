-- ===== src/Trading/Sweep.antt =====
-- The sweeps that fill the open orders which the live price has reached
-- (backend/app/services/trading.py, lines 167 to 251). A sweep first lists the orders of its
-- query, then visits each: it looks at the row's status again, reads a live price, and fills.
use crypto_exchange_pro.Prelude.{
  ℕ, Bool, true, false, Option, none, some, List, [], ◌∷◌, ◌&&◌, ◌==◌, if◌then◌else◌, select,
}
use crypto_exchange_pro.Prelude.Int.{leb_ℤ}
use crypto_exchange_pro.Prelude.Decimal.{Decimal}
use crypto_exchange_pro.Models.{
  Order, OrderSide, OrderType, buy, sell, market, limit, take_profit, stop_loss, is_open, is_limit,
  is_conditional,
}
use crypto_exchange_pro.Session.{Action, Error, ◌>>=◌, ◌>>◌, pure, gets, or_raise}
use crypto_exchange_pro.Tables.Orders.{find_order, find_pair, order_ids}
use crypto_exchange_pro.Market.{Feed, get_live_price}
use crypto_exchange_pro.Trading.Limit.{execute_limit_fill}

-- By the order's type and side, its price and the live price.
abbrev pub Test : Type 0
Test = OrderType → OrderSide → Decimal → Decimal → Bool

unfoldable pub crossed : Test
crossed _ buy price current = leb_ℤ current price
crossed _ sell price current = leb_ℤ price current

unfoldable pub conditional_triggered : Test
conditional_triggered take_profit sell trigger live = leb_ℤ trigger live
conditional_triggered take_profit buy trigger live = leb_ℤ live trigger
conditional_triggered stop_loss sell trigger live = leb_ℤ live trigger
conditional_triggered stop_loss buy trigger live = leb_ℤ trigger live
conditional_triggered market side trigger live = false
conditional_triggered limit side trigger live = false

-- The body of the loops for an order whose row is still open; its number if it was filled.
unfoldable pub try_fill : Feed → Test → Order → Action (Option ℕ)
try_fill feed fires order = do
  pair ← or_raise (← gets (λ db. find_pair order.pair_id db.pairs)) Error.missing_row
  live ← get_live_price feed pair.symbol
  price ← or_raise order.price Error.invalid_decimal
  if fires order.type order.side price live
      then (execute_limit_fill order pair >> pure (some order.id))
      else pure none

unfoldable pub visit : Feed → Test → ℕ → Action (Option ℕ)
visit feed fires id = do
  order ← or_raise (← gets (λ db. find_order id db.orders)) Error.missing_row
  if is_open order.status then try_fill feed fires order else pure none

abbrev pub append_some : Option ℕ → List ℕ → List ℕ
append_some none ids = ids
append_some (some id) ids = id ∷ ids

unfoldable pub fill_each : Feed → Test → List ℕ → Action (List ℕ)
fill_each feed fires [] = pure []
fill_each feed fires (id ∷ ids) = do
  one ← visit feed fires id
  rest ← fill_each feed fires ids
  pure (append_some one rest)

abbrev pub is_swept : ℕ → Order → Bool
is_swept user_id o = o.user_id == user_id && (is_open o.status && is_limit o.type)

unfoldable pub sweep_open_orders : Feed → ℕ → Action (List ℕ)
sweep_open_orders feed user_id = do
  ids ← gets (λ db. order_ids (select (is_swept user_id) db.orders))
  fill_each feed crossed ids

abbrev pub of_user : Option ℕ → Order → Bool
of_user none o = true
of_user (some user_id) o = o.user_id == user_id

abbrev pub is_checked : Option ℕ → Order → Bool
is_checked user_id o = is_open o.status && (is_conditional o.type && of_user user_id o)

unfoldable pub check_conditional_orders : Feed → Option ℕ → Action (List ℕ)
check_conditional_orders feed user_id = do
  ids ← gets (λ db. order_ids (select (is_checked user_id) db.orders))
  fill_each feed conditional_triggered ids
