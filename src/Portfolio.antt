-- ===== src/Portfolio.antt =====
-- A user's holdings in USD (backend/app/services/portfolio.py, lines 18 to 151). A foreign key's row
-- is there, so a wallet or pair whose asset is missing is left out.
pub mod History
pub mod Volume
pub mod Unwinding
pub mod Grouping
pub mod Entries
pub mod Totals
pub mod Agreement
pub mod Moves
pub mod Ledger
use crypto_exchange_pro.Prelude.{
  ℕ, String, Bool, Option, none, some, List, [], ◌∷◌, ◌++◌, ◌+◌, ◌&&◌, ◌||◌, ◌==◌, ltb,
  if◌then◌else◌, select, sort, map, page,
}
use text.Mathlib.Text.{◌==◌ as str_eq}
use crypto_exchange_pro.Prelude.Int.{pos, ◌+ℤ◌, ◌-ℤ◌, ltb_ℤ, eqb_ℤ}
use crypto_exchange_pro.Prelude.Decimal.{Decimal, ◌·◌, whole}
use crypto_exchange_pro.Models.{
  Asset, TradingPair, Trade, Wallet, OrderSide, buy, side_eq, spot, wallet_type_eq,
}
use crypto_exchange_pro.Session.{Db, Action, gets}
use crypto_exchange_pro.Tables.Orders.{find_pair}
use crypto_exchange_pro.Market.{Feed}
use crypto_exchange_pro.MarketMaker.{divide}
use crypto_exchange_pro.WalletService.Listing.{asset_of}
use crypto_exchange_pro.Routers.Listings.{symbol_or_unknown}

-- `symbol in USD_QUOTES`.
abbrev pub is_usd : String → Bool
is_usd symbol = str_eq symbol "USD" || str_eq symbol "USDT"

pub record Candidate : Type 0 where
  pub score : ℕ
  pub pair_symbol : String
  pub quote_symbol : String

-- The candidates by the symbol of the base asset.
abbrev pub QuoteCache : Type 0
QuoteCache = String → List Candidate

-- A pair quoted in USD or USDT, with USD first.
abbrev pub add_candidate :
    Option Asset → Option Asset → TradingPair → String → List Candidate → List Candidate
add_candidate none quote p symbol rest = rest
add_candidate (some base) none p symbol rest = rest
add_candidate (some base) (some quote) p symbol rest =
    if is_usd quote.symbol && str_eq base.symbol symbol
    then record {
      score = if str_eq quote.symbol "USD" then 0 else 1;
      pair_symbol = p.symbol;
      quote_symbol = quote.symbol;
    }
      ∷ rest
    else rest

unfoldable pub quote_cache : List Asset → List TradingPair → QuoteCache
quote_cache assets [] symbol = []
quote_cache assets (p ∷ ps) symbol =
    let rest = quote_cache assets ps symbol in
    if p.is_active
    then add_candidate (asset_of p.base_asset_id assets) (asset_of p.quote_asset_id assets) p symbol
        rest
    else rest

abbrev pub first_pair : List Candidate → Option String
first_pair [] = none
first_pair (c ∷ cs) = some c.pair_symbol

-- `candidates.sort(key=lambda c: c[0])`, then the first.
abbrev pub best_pair : QuoteCache → String → Option String
best_pair prices symbol =
    first_pair (sort (λ (c d : Candidate). ltb c.score d.score) (prices symbol))

-- The quantity that was bought, and its cost.
pub record Cost : Type 0 where
  pub total_qty : Decimal
  pub total_cost : Decimal

abbrev pub add_cost : ℕ → Trade → Option TradingPair → Cost → Cost
add_cost asset_id t none c = c
add_cost asset_id t (some pair) c =
    if pair.base_asset_id == asset_id
    then record { total_qty = c.total_qty +ℤ t.qty; total_cost = c.total_cost +ℤ t.qty · t.price }
    else c

unfoldable pub add_costs : ℕ → List TradingPair → List Trade → Cost → Cost
add_costs asset_id pairs [] c = c
add_costs asset_id pairs (t ∷ ts) c =
    add_costs asset_id pairs ts (add_cost asset_id t (find_pair t.pair_id pairs) c)

unfoldable pub avg_cost : ℕ → ℕ → Db → Option Decimal
avg_cost user_id asset_id db =
    let bought =
      add_costs asset_id db.pairs
        (select (λ (t : Trade). t.user_id == user_id && side_eq t.side buy) db.trades)
        (record { total_qty = pos 0; total_cost = pos 0 }) in
    if eqb_ℤ bought.total_qty (pos 0) then none else divide bought.total_cost bought.total_qty

pub record PortfolioItem : Type 0 where
  pub asset : String
  pub balance : Decimal
  pub usd_price : Decimal
  pub value_usd : Decimal
  pub pnl_usd : Decimal

pub record Portfolio : Type 0 where
  pub total_usd : Decimal
  pub items : List PortfolioItem

abbrev pub pnl_of : Option Decimal → Decimal → Decimal → Decimal
pnl_of none usd_price balance = pos 0
pnl_of (some cost) usd_price balance = (usd_price -ℤ cost) · balance

abbrev pub add_portfolio_item : PortfolioItem → Portfolio → Portfolio
add_portfolio_item item s = record {
  total_usd = s.total_usd +ℤ item.value_usd;
  items = s.items ++ item ∷ [];
}

-- A coin at the live price of its first candidate, if it has one.
abbrev pub add_coin : Feed → ℕ → Wallet → Asset → Option String → Portfolio × Db → Portfolio × Db
add_coin feed user_id w asset none (s, db) = (s, db)
add_coin feed user_id w asset (some pair_symbol) (s, db) =
    let usd_price = feed db.prices_read pair_symbol in
    (
      add_portfolio_item
          (record {
            asset = asset.symbol;
            balance = w.funds.balance;
            usd_price = usd_price;
            value_usd = w.funds.balance · usd_price;
            pnl_usd = pnl_of (avg_cost user_id asset.id db) usd_price w.funds.balance;
          })
          s,
      record db { prices_read = db.prices_read + 1 },
    )

-- Cash is worth what it counts.
abbrev pub add_wallet :
    Feed → ℕ → QuoteCache → Wallet → Option Asset → Portfolio × Db → Portfolio × Db
add_wallet feed user_id prices w none s = s
add_wallet feed user_id prices w (some asset) s =
    if is_usd asset.symbol
    then (
      add_portfolio_item
          (record {
            asset = asset.symbol;
            balance = w.funds.balance;
            usd_price = whole 1;
            value_usd = w.funds.balance;
            pnl_usd = pos 0;
          })
          s.0,
      s.1,
    )
    else add_coin feed user_id w asset (best_pair prices asset.symbol) s

unfoldable pub add_wallets :
    Feed → ℕ → QuoteCache → List Asset → List Wallet → Portfolio × Db → Portfolio × Db
add_wallets feed user_id prices assets [] s = s
add_wallets feed user_id prices assets (w ∷ ws) s =
    add_wallets feed user_id prices assets ws
      (add_wallet feed user_id prices w (asset_of w.key.asset_id assets) s)

abbrev pub is_spot_of : ℕ → Wallet → Bool
is_spot_of user_id w = w.key.user_id == user_id && wallet_type_eq w.key.type spot

abbrev pub worth_more : PortfolioItem → PortfolioItem → Bool
worth_more i j = ltb_ℤ j.value_usd i.value_usd

unfoldable pub get_portfolio : Feed → ℕ → Db → Portfolio × Db
get_portfolio feed user_id db =
    let wallets = select (λ w. is_spot_of user_id w && ltb_ℤ (pos 0) w.funds.balance) db.wallets in
    let (s, db') =
      add_wallets feed user_id (quote_cache db.assets db.pairs) db.assets wallets
        (record { total_usd = pos 0; items = [] }, db) in
    (record { total_usd = s.total_usd; items = sort worth_more s.items }, db')

pub record RecentTrade : Type 0 where
  pub pair : String
  pub side : OrderSide
  pub price : Decimal
  pub qty : Decimal
  pub notional : Decimal
  pub created_at : ℕ

unfoldable pub get_recent_trades : ℕ → ℕ → Action (List RecentTrade)
get_recent_trades user_id limit = gets (λ db.
    map
      (λ (t : Trade). record {
        pair = symbol_or_unknown (find_pair t.pair_id db.pairs);
        side = t.side;
        price = t.price;
        qty = t.qty;
        notional = t.notional;
        created_at = t.created_at;
      })
      (page limit 0 (select (λ (t : Trade). t.user_id == user_id) db.trades)))
