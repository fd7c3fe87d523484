-- ===== src/Exchange.antt =====
-- The running exchange: requests (backend/app/routers/orders.py, wallets.py, notifications.py), what a
-- registration does to its tables (backend/app/routers/auth.py), the monitor of conditional orders
-- (backend/app/main.py), the cleanup task (backend/app/tasks/__init__.py), and the clock, one after
-- another.
use crypto_exchange_pro.Prelude.{ℕ, String, none, List, [], ◌∷◌, ◌+◌}
use crypto_exchange_pro.Prelude.Decimal.{Decimal}
use crypto_exchange_pro.Models.{WalletType, Asset, TradingPair}
use crypto_exchange_pro.Session.{Db, Action}
use crypto_exchange_pro.Market.{Feed}
use crypto_exchange_pro.Trading.Sweep.{check_conditional_orders}
use crypto_exchange_pro.WalletService.{purge_stale_transactions}
use crypto_exchange_pro.Auth.{add_account}
use crypto_exchange_pro.Routers.Transaction.{commits}
use crypto_exchange_pro.Routers.Orders.{PlaceOrderRequest, place_order_endpoint, cancel_my_order}
use crypto_exchange_pro.Routers.Wallets.{deposit_endpoint, withdraw_endpoint, transfer_endpoint}
use crypto_exchange_pro.Routers.Notifications.{read_all, read_notification}

-- `_conditional_monitor_loop`, one round; an error is logged and its session is lost.
unfoldable pub monitor_round : Feed → Action (List ℕ)
unfolding commits
monitor_round feed = commits (check_conditional_orders feed none)

-- `cleanup_stale_transactions`.
unfoldable pub cleanup_stale_transactions : ℕ → Action ℕ
unfolding commits
cleanup_stale_transactions days = commits (purge_stale_transactions days)

pub data Event : Type 0 where
  registers : String → Decimal → Event
  places : ℕ → PlaceOrderRequest → Event
  cancels : ℕ → ℕ → Event
  deposits withdraws : ℕ → String → Decimal → Event
  transfers : ℕ → String → WalletType → WalletType → Decimal → Event
  reads_all : ℕ → Event
  reads : ℕ → ℕ → Event
  monitors : Event
  cleans : ℕ → Event
  waits : ℕ → Event

unfoldable pub serve : Feed → Event → Db → Db
serve feed (registers symbol bonus) db = add_account symbol bonus db
serve feed (places u r) db = (place_order_endpoint feed u r db).1
serve feed (cancels u i) db = (cancel_my_order u i db).1
serve feed (deposits u symbol x) db = (deposit_endpoint u symbol x db).1
serve feed (withdraws u symbol x) db = (withdraw_endpoint u symbol x db).1
serve feed (transfers u symbol source target x) db =
    (transfer_endpoint u symbol source target x db).1
serve feed (reads_all u) db = (read_all u db).1
serve feed (reads u i) db = (read_notification u i db).1
serve feed monitors db = (monitor_round feed db).1
serve feed (cleans days) db = (cleanup_stale_transactions days db).1
serve feed (waits t) db = record db { now = db.now + t }

unfoldable pub run : Feed → List Event → Db → Db
run feed [] db = db
run feed (e ∷ es) db = run feed es (serve feed e db)

-- The catalogue of assets and pairs, and nobody's money.
unfoldable pub seeded : List Asset → List TradingPair → ℕ → Db
seeded assets pairs now = record {
  assets = assets;
  pairs = pairs;
  wallets = [];
  orders = [];
  trades = [];
  transactions = [];
  notifications = [];
  next_id = 0;
  now = now;
  prices_read = 0;
}
