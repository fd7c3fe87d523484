-- ===== src/Admin/Lists.antt =====
-- The orders and trades of all users (backend/app/services/admin.py, lines 192 to 319).
use crypto_exchange_pro.Prelude.{
  if_given, ℕ, String, Bool, Option, none, some, List, [], ◌∷◌, ◌&&◌, ◌||◌, leb, given, select, map,
  page, length,
}
use text.Mathlib.Text.{◌==◌ as str_eq}
use crypto_exchange_pro.Prelude.Decimal.{Decimal}
use crypto_exchange_pro.Models.{
  Order, OrderSide, OrderType, OrderStatus, side_eq, type_eq, status_eq, Trade, TradingPair,
}
use crypto_exchange_pro.Session.{Db}
use crypto_exchange_pro.Tables.Orders.{find_pair}
use crypto_exchange_pro.Auth.{User, find_user}
use crypto_exchange_pro.Routers.Listings.{side_value, type_value, status_value}

-- The columns that the joins add to a row.
pub record Joined (A : Type 0) : Type 0 where
  pub row : A
  pub email : String
  pub username : String
  pub symbol : String

module _ {A : Type 0} where
  -- An inner join drops a row without a user or without a pair.
  abbrev pub cons_joined : A → Option User → Option TradingPair → List (Joined A) → List (Joined A)
  cons_joined a none p rest = rest
  cons_joined a (some u) none rest = rest
  cons_joined a (some u) (some p) rest =
      record { row = a; email = u.email; username = u.username; symbol = p.symbol } ∷ rest

  unfoldable pub join : (A → ℕ) → (A → ℕ) → List User → List TradingPair → List A → List (Joined A)
  join user_of pair_of users pairs [] = []
  join user_of pair_of users pairs (a ∷ rows) =
      cons_joined a (find_user (user_of a) users) (find_pair (pair_of a) pairs)
        (join user_of pair_of users pairs rows)

pub record AdminOrderQuery : Type 0 where
  pub user : Option String
  pub pair_symbol : Option String
  pub status : Option OrderStatus
  pub side : Option OrderSide
  pub order_type : Option OrderType
  pub date_from : Option ℕ
  pub date_to : Option ℕ

unfoldable pub is_wanted : (String → String → Bool) → AdminOrderQuery → Joined Order → Bool
is_wanted ilike q j =
    if_given q.user (λ s. ilike s j.email || ilike s j.username)
    && (if_given q.pair_symbol (λ s. str_eq j.symbol s)
        && (given q.status (status_eq j.row.status)
            && (given q.side (side_eq j.row.side)
                && (given q.order_type (type_eq j.row.type)
                    && (given q.date_from (λ t. leb t j.row.created_at)
                        && given q.date_to (λ t. leb j.row.created_at t))))))

pub record AdminOrderItem : Type 0 where
  pub id : ℕ
  pub user_email : String
  pub user_username : String
  pub pair : String
  pub side : String
  pub type : String
  pub price : Option Decimal
  pub qty : Decimal
  pub filled_qty : Decimal
  pub avg_fill_price : Option Decimal
  pub status : String
  pub created_at : ℕ

abbrev pub admin_order_item : Joined Order → AdminOrderItem
admin_order_item j = record {
  id = j.row.id;
  user_email = j.email;
  user_username = j.username;
  pair = j.symbol;
  side = side_value j.row.side;
  type = type_value j.row.type;
  price = j.row.price;
  qty = j.row.qty;
  filled_qty = j.row.filled_qty;
  avg_fill_price = j.row.avg_fill_price;
  status = status_value j.row.status;
  created_at = j.row.created_at;
}

-- How many rows the conditions leave, and a page of them.
pub record Listed (A : Type 0) : Type 0 where
  pub total : ℕ
  pub items : List A

abbrev pub joined_orders : List User → Db → List (Joined Order)
joined_orders users db =
    join (λ (o : Order). o.user_id) (λ (o : Order). o.pair_id) users db.pairs db.orders

unfoldable pub list_all_orders :
    (String → String → Bool) → AdminOrderQuery → ℕ → ℕ → List User → Db → Listed AdminOrderItem
list_all_orders ilike q limit offset users db =
    let wanted = select (is_wanted ilike q) (joined_orders users db) in
    record { total = length wanted; items = map admin_order_item (page limit offset wanted) }

pub record AdminTradeQuery : Type 0 where
  pub user : Option String
  pub pair_symbol : Option String
  pub side : Option OrderSide
  pub date_from : Option ℕ
  pub date_to : Option ℕ

unfoldable pub is_wanted_trade : (String → String → Bool) → AdminTradeQuery → Joined Trade → Bool
is_wanted_trade ilike q j =
    if_given q.user (λ s. ilike s j.email || ilike s j.username)
    && (if_given q.pair_symbol (λ s. str_eq j.symbol s)
        && (given q.side (side_eq j.row.side)
            && (given q.date_from (λ t. leb t j.row.created_at)
                && given q.date_to (λ t. leb j.row.created_at t))))

pub record AdminTradeItem : Type 0 where
  pub order_id : ℕ
  pub user_email : String
  pub user_username : String
  pub pair : String
  pub side : String
  pub price : Decimal
  pub qty : Decimal
  pub notional : Decimal
  pub created_at : ℕ

abbrev pub admin_trade_item : Joined Trade → AdminTradeItem
admin_trade_item j = record {
  order_id = j.row.order_id;
  user_email = j.email;
  user_username = j.username;
  pair = j.symbol;
  side = side_value j.row.side;
  price = j.row.price;
  qty = j.row.qty;
  notional = j.row.notional;
  created_at = j.row.created_at;
}

unfoldable pub list_all_trades :
    (String → String → Bool) → AdminTradeQuery → ℕ → ℕ → List User → Db → Listed AdminTradeItem
list_all_trades ilike q limit offset users db =
    let wanted =
      select (is_wanted_trade ilike q)
        (join (λ (t : Trade). t.user_id) (λ (t : Trade). t.pair_id) users db.pairs db.trades) in
    record { total = length wanted; items = map admin_trade_item (page limit offset wanted) }
