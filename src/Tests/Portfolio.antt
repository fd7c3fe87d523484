-- ===== src/Tests/Portfolio.antt =====
-- A user's holdings, history and volume on a small exchange, and instances of their theorems.
use crypto_exchange_pro.Tests.Sample.{usdt, btc, btc_usdt, feed}
use crypto_exchange_pro.Tests.Exchange.{feed-nonneg, catalogue-IsKeyed}
use crypto_exchange_pro.Prelude.{
  ℕ, String, false, ◌≡◌, refl, some, none, List, [], ◌∷◌, ◌++◌, All, sort, select, map, ◌-◌, ◌*◌,
  arith,
}
use crypto_exchange_pro.Prelude.Int.{pos, neg_ℤ, ◌+ℤ◌, ◌-ℤ◌}
use crypto_exchange_pro.Prelude.Sums.{sum_by}
use crypto_exchange_pro.Prelude.Decimal.{Decimal, whole, div_half_even, ◌·◌}
use crypto_exchange_pro.Models.{
  Wallet, Transaction, TransactionType, Trade, buy, sell, spot, funding, completed, same_wallet,
}
use crypto_exchange_pro.Session.{Db, ok}
use crypto_exchange_pro.Exchange.{Event, run, seeded, waits, deposits, transfers, serve}
use crypto_exchange_pro.Tables.Wallets.{insert_missing, has_wallet, funds_of, write_wallet}
use crypto_exchange_pro.Tables.Orders.{find_asset, find_pair}
use crypto_exchange_pro.Solvency.History.{run-seeded-IsSolvent}
use crypto_exchange_pro.Solvency.Claims.{ledger, ledger_by, spot_key}
use crypto_exchange_pro.Routers.Wallets.{transfer_endpoint, deposit_endpoint}
use crypto_exchange_pro.Routers.Transaction.{commits}
use crypto_exchange_pro.WalletService.{
  transfer, credit, add_transaction, assign, cover, get_or_create_asset, get_or_create_wallet,
  read_funds,
}
use crypto_exchange_pro.WalletService.Listing.{asset_of}
use crypto_exchange_pro.MarketMaker.{divide}
use crypto_exchange_pro.Portfolio.{get_portfolio, quote_cache, avg_cost, add_costs, add_wallets}
use crypto_exchange_pro.Portfolio.History.{
  Holding, Past, unwind, holdings, holds, newest_first, current_holdings, live_usd_value, earlier,
  get_portfolio_history,
}
use crypto_exchange_pro.Portfolio.Unwinding.{moved, balances_at, AreHeld}
use crypto_exchange_pro.Portfolio.Agreement.{
  still, direct_history, get_portfolio_history_direct, get_portfolio_history-total,
}
use crypto_exchange_pro.Portfolio.Moves.{funding_key, up_to, IsCompleted}
use crypto_exchange_pro.Portfolio.Ledger.{AreUnique, unwind-ledger}
use crypto_exchange_pro.Portfolio.Volume.{
  PairVolume, is_recent_of, volume_notional, get_volume_report,
}
use crypto_exchange_pro.Portfolio.Grouping.{traded, AreDistinct}
use crypto_exchange_pro.Portfolio.Totals.{total_traded, get_volume_report_lem}

abbrev pub no_hash : String → ℕ → ℕ
no_hash symbol minute = 1000

abbrev hundred : String → Decimal
hundred symbol = whole 100

abbrev wallet : ℕ → ℕ → Wallet
wallet asset_id amount = record {
  key = spot_key 5 asset_id;
  funds = record { balance = whole amount; available = whole amount; frozen = pos 0 };
}

abbrev row : ℕ → ℕ → ℕ → Transaction
row asset_id amount at = record {
  wallet = spot_key 5 asset_id;
  type = TransactionType.deposit;
  status = completed;
  amount = whole amount;
  delta = whole amount;
  ref_id = none;
  created_at = at;
}

abbrev bought : ℕ → Trade
bought price = record {
  order_id = 0;
  user_id = 5;
  pair_id = 7;
  side = buy;
  price = whole price;
  qty = whole 2;
  notional = whole (2 * price);
  created_at = 863000000000;
}

abbrev sold : Trade
sold = record (bought 120) { side = sell }

abbrev pub shop : Db
shop = record {
  assets = usdt ∷ btc ∷ [];
  pairs = btc_usdt ∷ [];
  wallets = wallet 1 50 ∷ wallet 2 2 ∷ [];
  orders = [];
  trades = bought 70 ∷ bought 90 ∷ sold ∷ [];
  transactions = row 2 1 800000000000 ∷ row 1 50 700000000000 ∷ row 2 1 863000000000 ∷ [];
  notifications = [];
  next_id = 9;
  now = 864000000000;
  prices_read = 0;
}

portfolio_at_100 : (get_portfolio (still hundred) 5 shop).0 ≡ record {
  total_usd = whole 250;
  items =
      record {
        asset = "BTC";
        balance = whole 2;
        usd_price = whole 100;
        value_usd = whole 200;
        pnl_usd = whole 40;
      }
      ∷ record {
        asset = "USDT";
        balance = whole 50;
        usd_price = whole 1;
        value_usd = whole 50;
        pnl_usd = pos 0;
      }
      ∷ [];
}
unfolding get_portfolio quote_cache avg_cost add_costs add_wallets asset_of divide div_half_even
    find_pair ◌·◌ ◌+ℤ◌ ◌-ℤ◌
portfolio_at_100 = refl

shop-AreHeld : AreHeld (current_holdings 5 shop) (newest_first 5 shop)
unfolding holds holdings asset_of
shop-AreHeld = (refl, (refl, (refl, tt)))

get_portfolio_history_direct_example :
    let value =
      (live_usd_value feed
        (quote_cache shop.assets shop.pairs)
        (current_holdings 5 shop)
        (pos 0, shop)).0 in
    (get_portfolio_history feed no_hash 5 2 1 shop).0
    ≡ some (
        sort earlier (
          direct_history feed no_hash 5 2 1 shop ++ record { time = shop.now; value = value } ∷ []))
get_portfolio_history_direct_example =
    get_portfolio_history_direct feed no_hash 5 2 1 shop refl shop-AreHeld

get_portfolio_history-total_example :
    let total = (get_portfolio (still hundred) 5 shop).0.total_usd in
    (get_portfolio_history (still hundred) no_hash 5 2 1 shop).0
    ≡ some (
        sort earlier (
          direct_history (still hundred) no_hash 5 2 1 shop
          ++ record { time = shop.now; value = total } ∷ []))
get_portfolio_history-total_example =
    get_portfolio_history-total hundred no_hash 5 2 1 shop (omega arith, (omega arith, tt)) refl
      shop-AreHeld

get_volume_report_lem_example :
    let ts = select (is_recent_of 5 (shop.now - 1 * 86400000000)) shop.trades in
    (v : _) × (get_volume_report (λ s t. false) 5 1 shop ≡ (ok v, shop))
    × AreDistinct v.pairs
    × All
        (λ (p : PairVolume).
          (p.buy_notional ≡ traded buy p.pair shop.pairs ts)
          × (p.sell_notional ≡ traded sell p.pair shop.pairs ts))
        v.pairs
    × (v.total_notional ≡ sum_by volume_notional v.pairs)
    × (v.total_notional ≡ total_traded shop.pairs ts)
get_volume_report_lem_example = get_volume_report_lem (λ s t. false) 5 1 shop

-- A deposit of 1000, and a transfer of 700 of it to the funding wallet a little later.
abbrev moves : List Event
moves = deposits 5 "USDT" (whole 1000) ∷ waits 60 ∷ transfers 5 "USDT" spot funding (whole 700) ∷ []

abbrev opening : Db
opening = seeded (usdt ∷ btc ∷ []) (btc_usdt ∷ []) 1000

unfoldable evening : Db
unfolding run
evening = run feed moves opening

evening-AreCompleted : All IsCompleted evening.transactions
unfolding insert_missing evening serve run seeded transfer_endpoint transfer find_asset
    deposit_endpoint credit same_wallet neg_ℤ ◌+ℤ◌ ◌-ℤ◌ commits write_wallet funds_of
    add_transaction assign cover get_or_create_asset get_or_create_wallet read_funds
evening-AreCompleted = (refl, (refl, (refl, tt)))

evening-AreUnique : AreUnique evening.wallets
unfolding insert_missing evening serve run seeded transfer_endpoint transfer find_asset
    deposit_endpoint credit same_wallet neg_ℤ ◌+ℤ◌ ◌-ℤ◌ commits write_wallet funds_of has_wallet
    add_transaction assign cover get_or_create_asset get_or_create_wallet read_funds
evening-AreUnique = (refl, (refl, tt))

evening-AreHeld : AreHeld (current_holdings 5 evening) (newest_first 5 evening)
unfolding insert_missing evening serve run seeded transfer_endpoint transfer find_asset
    deposit_endpoint credit same_wallet neg_ℤ ◌+ℤ◌ ◌-ℤ◌ commits write_wallet funds_of has_wallet
    add_transaction assign cover get_or_create_asset get_or_create_wallet read_funds holdings holds
    asset_of
evening-AreHeld = (refl, (refl, (refl, tt)))

unwind-ledger_example :
    (left : Past) × (unwind 1030 (newest_first 5 evening) (current_holdings 5 evening) ≡ some left)
    × All
        (λ (h : Holding).
          h.amount +ℤ (funds_of (funding_key 5 h.asset_id) evening.wallets).balance
          ≡ ledger (spot_key 5 h.asset_id) (up_to 1030 evening.transactions)
            +ℤ ledger (funding_key 5 h.asset_id) (up_to 1030 evening.transactions))
        left.1
unfolding evening
unwind-ledger_example =
    unwind-ledger 5 1030 evening
      (run-seeded-IsSolvent feed moves (usdt ∷ btc ∷ []) (btc_usdt ∷ []) 1000 feed-nonneg
        (tt, (tt, (tt, tt))) catalogue-IsKeyed)
      evening-AreCompleted evening-AreUnique evening-AreHeld

-- Between the two the spot wallet had 1000, and the history has 300.
history_after_transfer :
    (map
        (λ (h : Holding). h.amount)
        (balances_at 1030 (newest_first 5 evening) (current_holdings 5 evening))
      ≡ whole 300 ∷ [])
    × (ledger (spot_key 5 1) (up_to 1030 evening.transactions) ≡ whole 1000)
unfolding insert_missing evening serve run seeded transfer_endpoint transfer find_asset
    deposit_endpoint credit same_wallet neg_ℤ ◌+ℤ◌ ◌-ℤ◌ commits write_wallet funds_of has_wallet
    add_transaction assign cover get_or_create_asset get_or_create_wallet read_funds moved holdings
    asset_of ledger ledger_by
history_after_transfer = (refl, refl)
