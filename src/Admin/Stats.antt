-- ===== src/Admin/Stats.antt =====
-- The administrator's statistics (backend/app/services/admin.py, lines 322 to 474). Trades are joined
-- with their pairs; a quote asset that is missing counts as USDT. Dates are days since
-- the epoch. The number of days is left out of the response.
use crypto_exchange_pro.Prelude.{
  ℕ, String, Bool, Option, none, some, List, [], ◌∷◌, ◌+◌, ◌-◌, ◌*◌, ◌/◌, ◌%◌, ◌&&◌, ◌==◌, leb, ltb,
  if◌then◌else◌, select, sort, length,
}
use Prim.Native.String.{◌++◌ as str_append}
use text.Mathlib.Text.{◌==◌ as str_eq}
use crypto_exchange_pro.Prelude.Int.{pos, ◌+ℤ◌, ltb_ℤ}
use crypto_exchange_pro.Prelude.Decimal.{Decimal, ◌·◌}
use crypto_exchange_pro.Models.{
  Asset, Order, OrderSide, buy, sell, side_eq, Trade, TradingPair, Wallet, spot, wallet_type_eq,
  is_open,
}
use crypto_exchange_pro.Session.{Db}
use crypto_exchange_pro.Tables.Orders.{find_pair}
use crypto_exchange_pro.WalletService.Listing.{asset_of}
use crypto_exchange_pro.Portfolio.{is_usd}
use crypto_exchange_pro.Portfolio.History.{day}
use crypto_exchange_pro.Auth.{User}
use crypto_exchange_pro.Admin.{current_price, wallets_total_usd}

abbrev pub symbol_or_usdt : Option Asset → String
symbol_or_usdt none = "USDT"
symbol_or_usdt (some a) = a.symbol

-- A trade with the columns of its pair.
pub record PairTrade : Type 0 where
  pub trade : Trade
  pub symbol : String
  pub quote_asset_id : ℕ

abbrev pub cons_pair_trade : Trade → Option TradingPair → List PairTrade → List PairTrade
cons_pair_trade t none rest = rest
cons_pair_trade t (some p) rest =
    record { trade = t; symbol = p.symbol; quote_asset_id = p.quote_asset_id } ∷ rest

unfoldable pub pair_trades : List TradingPair → List Trade → List PairTrade
pair_trades pairs [] = []
pair_trades pairs (t ∷ ts) = cons_pair_trade t (find_pair t.pair_id pairs) (pair_trades pairs ts)

-- A row of the query that is grouped by symbol, quote asset and side.
pub record PairRow : Type 0 where
  pub symbol : String
  pub quote_asset_id : ℕ
  pub side : OrderSide
  pub notional : Decimal
  pub trades : ℕ

unfoldable pub group_pair_trade : PairTrade → List PairRow → List PairRow
group_pair_trade t [] =
    record {
      symbol = t.symbol;
      quote_asset_id = t.quote_asset_id;
      side = t.trade.side;
      notional = t.trade.notional;
      trades = 1;
    }
    ∷ []
group_pair_trade t (r ∷ rows) =
    let rest = group_pair_trade t rows in
    if str_eq r.symbol t.symbol
      && (r.quote_asset_id == t.quote_asset_id && side_eq r.side t.trade.side)
    then record r { notional = r.notional +ℤ t.trade.notional; trades = r.trades + 1 } ∷ rows
    else r ∷ rest

unfoldable pub pair_rows : List PairTrade → List PairRow
pair_rows [] = []
pair_rows (t ∷ ts) = group_pair_trade t (pair_rows ts)

pub record PairStats : Type 0 where
  pub pair : String
  pub buy_notional : Decimal
  pub sell_notional : Decimal
  pub volume_notional : Decimal
  pub trades : ℕ

abbrev pub no_stats : String → PairStats
no_stats symbol = record {
  pair = symbol;
  buy_notional = pos 0;
  sell_notional = pos 0;
  volume_notional = pos 0;
  trades = 0;
}

-- What a row adds to the entry of its pair, with the row's notional in USD.
abbrev pub count_row : OrderSide → Decimal → ℕ → PairStats → PairStats
count_row buy usd trades e = record e {
  buy_notional = e.buy_notional +ℤ usd;
  volume_notional = e.volume_notional +ℤ usd;
  trades = e.trades + trades;
}
count_row sell usd trades e = record e {
  sell_notional = e.sell_notional +ℤ usd;
  volume_notional = e.volume_notional +ℤ usd;
  trades = e.trades + trades;
}

-- `pairs.setdefault(symbol, ...)`.
unfoldable pub count_in : String → (PairStats → PairStats) → List PairStats → List PairStats
count_in symbol f [] = f (no_stats symbol) ∷ []
count_in symbol f (e ∷ es) =
    let rest = count_in symbol f es in if str_eq e.pair symbol then f e ∷ es else e ∷ rest

pub record DayStats : Type 0 where
  pub date : ℕ
  pub volume_usd : Decimal
  pub trades : ℕ

abbrev pub count_trade : Decimal → DayStats → DayStats
count_trade usd d = record d { volume_usd = d.volume_usd +ℤ usd; trades = d.trades + 1 }

-- `timeline.setdefault(day, ...)`.
unfoldable pub count_on : ℕ → Decimal → List DayStats → List DayStats
count_on date usd [] = count_trade usd (record { date = date; volume_usd = pos 0; trades = 0 }) ∷ []
count_on date usd (d ∷ ds) =
    let rest = count_on date usd ds in if d.date == date then count_trade usd d ∷ ds else d ∷ rest

pub record Timeline : Type 0 where
  pub days : List DayStats
  pub today_volume : Decimal

pub record AdminStats : Type 0 where
  pub users : ℕ
  pub active_users : ℕ
  pub orders : ℕ
  pub open_orders : ℕ
  pub trades : ℕ
  pub total_spot_usd : Decimal
  pub today_trades : ℕ
  pub today_volume_usd : Decimal
  pub volume_by_pair : List PairStats
  pub volume_timeline : List DayStats

abbrev pub start_of_today : Db → ℕ
start_of_today db = db.now - db.now % day

abbrev pub since : ℕ → Trade → Bool
since cutoff t = leb cutoff t.created_at

module _ (hash : String → ℕ → ℕ) where
  unfoldable pub notional_in_usd : Db → String → Decimal → Decimal
  notional_in_usd db quote_symbol notional =
      if is_usd quote_symbol
      then notional
      else notional · current_price hash db (str_append quote_symbol "/USDT")

  abbrev pub usd_of : Db → ℕ → Decimal → Decimal
  usd_of db quote_id notional =
      notional_in_usd db (symbol_or_usdt (asset_of quote_id db.assets)) notional

  unfoldable pub count_rows : Db → List PairRow → List PairStats → List PairStats
  count_rows db [] es = es
  count_rows db (r ∷ rows) es =
      count_rows db rows
        (count_in r.symbol (count_row r.side (usd_of db r.quote_asset_id r.notional) r.trades) es)

  abbrev pub count_today : Db → PairTrade → Timeline → Timeline
  count_today db t l =
      let usd = usd_of db t.quote_asset_id t.trade.notional in
      record {
        days = count_on (t.trade.created_at / day) usd l.days;
        today_volume =
            if leb (start_of_today db) t.trade.created_at
            then l.today_volume +ℤ usd
            else l.today_volume;
      }

  unfoldable pub count_days : Db → List PairTrade → Timeline → Timeline
  count_days db [] l = l
  count_days db (t ∷ ts) l = count_days db ts (count_today db t l)

  unfoldable pub get_admin_stats : ℕ → List User → Db → AdminStats
  get_admin_stats days users db =
      let recent = pair_trades db.pairs (select (since (db.now - days * day)) db.trades) in
      let timeline = count_days db recent (record { days = []; today_volume = pos 0 }) in
      record {
        users = length users;
        active_users = length (select (λ (u : User). u.is_active) users);
        orders = length db.orders;
        open_orders = length (select (λ (o : Order). is_open o.status) db.orders);
        trades = length db.trades;
        total_spot_usd =
            wallets_total_usd hash
              (select (λ (w : Wallet). wallet_type_eq w.key.type spot) db.wallets) db;
        today_trades = length (select (since (start_of_today db)) db.trades);
        today_volume_usd = timeline.today_volume;
        volume_by_pair =
            sort (λ (p q : PairStats). ltb_ℤ q.volume_notional p.volume_notional)
              (count_rows db (pair_rows recent) []);
        volume_timeline = sort (λ (d e : DayStats). ltb d.date e.date) timeline.days;
      }
