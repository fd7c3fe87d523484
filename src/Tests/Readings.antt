-- ===== src/Tests/Readings.antt =====
-- Notifications, ledgers and listings at concrete inputs.
use crypto_exchange_pro.Tests.Sample.{usdt, btc, btc_usdt}
use crypto_exchange_pro.Prelude.{
  map, ℕ, ◌+◌, ◌≡◌, ◌≤◌, ◌↔◌, ◌-◌, ◌*◌, refl, page, select, Bool, true, false, none, some, List, [],
  ◌∷◌, ◌++◌, All, length,
}
use crypto_exchange_pro.Prelude.Int.{pos}
use crypto_exchange_pro.Prelude.Decimal.{whole}
use crypto_exchange_pro.Models.{
  Notification, order_filled, market, buy, Order, filled, WalletKey, Transaction, TransactionType,
  pending, completed, spot, Wallet,
}
use crypto_exchange_pro.Session.{Db, ok}
use crypto_exchange_pro.NotificationService.{mark_all_read, unread_count, list_notifications}
use crypto_exchange_pro.NotificationService.Reading.{seen, mark_all_read_lem}
use crypto_exchange_pro.WalletService.{purge_stale_transactions}
use crypto_exchange_pro.Solvency.Claims.{ledger}
use crypto_exchange_pro.Solvency.Purging.{stays, purge_stale_transactions_lem}
use crypto_exchange_pro.Trading.Listing.{OrderQuery, list_orders}
use crypto_exchange_pro.Trading.Matching.{Matches}
use crypto_exchange_pro.Trading.Pages.{list_orders_lem}

abbrev note : ℕ → ℕ → Notification
note id user_id = record {
  id = id;
  user_id = user_id;
  kind = order_filled;
  order_type = market;
  side = buy;
  symbol = "BTC/USDT";
  price = none;
  is_read = false;
  created_at = 5;
}

abbrev bought : ℕ → Order
bought id = record {
  id = id;
  user_id = 5;
  pair_id = 7;
  side = buy;
  type = market;
  price = some (whole 90);
  qty = whole 2;
  filled_qty = whole 2;
  avg_fill_price = some (whole 90);
  status = filled;
  created_at = id;
}

abbrev spot_of : ℕ → WalletKey
spot_of asset_id = record { user_id = 5; asset_id = asset_id; type = spot }

abbrev entry : Transaction
entry = record {
  wallet = spot_of 1;
  type = TransactionType.deposit;
  status = pending;
  amount = whole 5;
  delta = whole 5;
  ref_id = none;
  created_at = 3;
}

abbrev wallet_of : ℕ → Wallet
wallet_of asset_id = record {
  key = spot_of asset_id;
  funds = record { balance = whole 1; available = whole 1; frozen = pos 0 };
}

abbrev pub tables : Db
tables = record {
  assets = usdt ∷ btc ∷ [];
  pairs = btc_usdt ∷ [];
  wallets = wallet_of 1 ∷ wallet_of 2 ∷ [];
  orders = bought 0 ∷ bought 1 ∷ bought 2 ∷ [];
  trades = [];
  transactions = entry ∷ record entry { status = completed } ∷ [];
  notifications = note 10 5 ∷ note 11 6 ∷ note 12 5 ∷ [];
  next_id = 20;
  now = 864000000000;
  prices_read = 0;
}

unread_before : (unread_count 5 tables).0 ≡ ok 2
unfolding unread_count
unread_before = refl

mark_all_read_lem_example :
    let (r, db') = mark_all_read 5 tables in
    (r ≡ (unread_count 5 tables).0)
    × (db'.notifications ≡ map (seen 5) tables.notifications)
    × ((unread_count 5 db').0 ≡ ok 0)
    × ((list_notifications 6 50 0 db').0 ≡ (list_notifications 6 50 0 tables).0)
mark_all_read_lem_example = mark_all_read_lem 5 6 50 0 tables refl

purge_stale_transactions_lem_example :
    let (r, db') = purge_stale_transactions 7 tables in
    (db'.transactions ≡ select (stays (864000000000 - 7 * 86400000000)) tables.transactions)
    × ((n : ℕ) × (r ≡ ok n) × (n + length db'.transactions ≡ length tables.transactions))
    × (ledger (spot_of 1) db'.transactions ≡ ledger (spot_of 1) tables.transactions)
    × ((purge_stale_transactions 7 db').0 ≡ ok 0)
purge_stale_transactions_lem_example = purge_stale_transactions_lem 7 (spot_of 1) tables

abbrev any_order : OrderQuery
any_order = record {
  order_status = none;
  pair_symbol = some "BTC/USDT";
  side = none;
  order_type = none;
  date_from = none;
  date_to = none;
}

list_orders_lem_example :
    (os next both : List Order) × ((list_orders 5 2 0 any_order tables).0 ≡ ok os)
    × ((list_orders 5 1 2 any_order tables).0 ≡ ok next)
    × ((list_orders 5 3 0 any_order tables).0 ≡ ok both)
    × ((keep : Order → Bool) × ((o : Order) → (keep o ≡ true) ↔ Matches 5 any_order tables.pairs o)
        × (os ≡ page 2 0 (select keep tables.orders)))
    × (length os ≤ 2)
    × All (Matches 5 any_order tables.pairs) os
    × (both ≡ os ++ next)
list_orders_lem_example = list_orders_lem 5 2 1 0 any_order tables
