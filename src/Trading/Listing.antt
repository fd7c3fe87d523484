-- ===== src/Trading/Listing.antt =====
-- The lists of a user's orders and trades (backend/app/services/trading.py, lines 404 to 465).
use crypto_exchange_pro.Prelude.{
  ℕ, String, Bool, false, Option, none, some, List, ◌&&◌, ◌==◌, leb, select, page, map, given,
  if_given,
}
use text.Mathlib.Text.{◌==◌ as str_eq}
use crypto_exchange_pro.Models.{
  Order, OrderSide, OrderType, OrderStatus, side_eq, type_eq, status_eq, Trade, TradingPair,
}
use crypto_exchange_pro.Session.{Action, gets}
use crypto_exchange_pro.Tables.Orders.{find_pair}

abbrev pub pair_is : Option String → Option TradingPair → Bool
pair_is symbol none = false
pair_is symbol (some pair) = if_given symbol (λ s. str_eq pair.symbol s)

pub record OrderQuery : Type 0 where
  pub order_status : Option OrderStatus
  pub pair_symbol : Option String
  pub side : Option OrderSide
  pub order_type : Option OrderType
  pub date_from : Option ℕ
  pub date_to : Option ℕ

-- The `WHERE` clauses; the join drops an order without a pair.
unfoldable pub is_listed : ℕ → OrderQuery → List TradingPair → Order → Bool
is_listed user_id q pairs o =
    o.user_id == user_id
    && (pair_is q.pair_symbol (find_pair o.pair_id pairs)
        && (given q.order_status (status_eq o.status)
            && (given q.side (side_eq o.side)
                && (given q.order_type (type_eq o.type)
                    && (given q.date_from (λ t. leb t o.created_at)
                        && given q.date_to (λ t. leb o.created_at t))))))

unfoldable pub list_orders : ℕ → ℕ → ℕ → OrderQuery → Action (List Order)
list_orders user_id limit offset q =
    gets (λ db. page limit offset (select (is_listed user_id q db.pairs) db.orders))

pub record TradeQuery : Type 0 where
  pub pair_symbol : Option String
  pub side : Option OrderSide
  pub date_from : Option ℕ
  pub date_to : Option ℕ

unfoldable pub is_listed_trade : ℕ → TradeQuery → List TradingPair → Trade → Bool
is_listed_trade user_id q pairs t =
    t.user_id == user_id
    && (pair_is q.pair_symbol (find_pair t.pair_id pairs)
        && (given q.side (side_eq t.side)
            && (given q.date_from (λ d. leb d t.created_at)
                && given q.date_to (λ d. leb t.created_at d))))

abbrev pub symbol_of : Option TradingPair → Option String
symbol_of none = none
symbol_of (some pair) = some pair.symbol

-- Each trade with its pair's symbol.
unfoldable pub list_trades : ℕ → ℕ → ℕ → TradeQuery → Action (List (Trade × Option String))
list_trades user_id limit offset q = gets (λ db.
    map (λ (t : Trade). (t, symbol_of (find_pair t.pair_id db.pairs)))
      (page limit offset (select (is_listed_trade user_id q db.pairs) db.trades)))
