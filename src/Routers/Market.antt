-- ===== src/Routers/Market.antt =====
-- backend/app/routers/market.py: the public endpoints of market data. A response that the cache holds
-- is served as it is. `answer` stands for what the cache and Binance answer for the pair's symbol at
-- Binance, if it has one, and `price` for the market maker's price.
use crypto_exchange_pro.Prelude.{
  ℕ, String, Bool, Option, none, some, List, [], ◌∷◌, ◌/◌, ◌&&◌, leb, not, is_some, map, select,
  if◌then◌else◌,
}
use crypto_exchange_pro.Prelude.Decimal.{Decimal}
use crypto_exchange_pro.Models.{Asset, TradingPair, PairStatus}
use crypto_exchange_pro.Session.{Action, Error, ◌>>=◌, ◌>>◌, pure, raise, gets, raise_if}
use crypto_exchange_pro.Tables.Orders.{find_symbol}
use crypto_exchange_pro.WalletService.Listing.{asset_of}
use crypto_exchange_pro.MarketMaker.{Print, PairState}
use crypto_exchange_pro.Market.Upstream.{Fetched, served}
use crypto_exchange_pro.Market.Tickers.{
  Ticker, Stats, Stats24, list_pairs, build_ticker, build_stats_24h,
}
use crypto_exchange_pro.Market.Candles.{Candle, TradePrint, get_ohlc, interval_of, recent_prints}

pub record PairResponse : Type 0 where
  pub id : ℕ
  pub symbol : String
  pub base_asset : String
  pub quote_asset : String
  pub price_precision : ℕ
  pub qty_precision : ℕ
  pub status : PairStatus

-- A foreign key's row is there.
abbrev pub cons_response :
    TradingPair → Option Asset → Option Asset → List PairResponse → List PairResponse
cons_response p none quote rest = rest
cons_response p (some base) none rest = rest
cons_response p (some base) (some quote) rest =
    record {
      id = p.id;
      symbol = p.symbol;
      base_asset = base.symbol;
      quote_asset = quote.symbol;
      price_precision = p.price_precision;
      qty_precision = p.qty_precision;
      status = p.status;
    }
    ∷ rest

unfoldable pub pair_responses : List Asset → List TradingPair → List PairResponse
pair_responses assets [] = []
pair_responses assets (p ∷ ps) =
    cons_response p (asset_of p.base_asset_id assets) (asset_of p.quote_asset_id assets)
      (pair_responses assets ps)

unfoldable pub list_pairs_endpoint : (String → String → Bool) → Action (List PairResponse)
list_pairs_endpoint precedes = gets (λ db. pair_responses db.assets (list_pairs precedes db))

-- `_get_pair`.
abbrev pub active_or_404 : Option TradingPair → Action TradingPair
active_or_404 none = raise Error.pair_not_found
active_or_404 (some p) = if p.is_active then pure p else raise Error.pair_not_found

unfoldable pub market_pair : String → Action TradingPair
market_pair symbol = gets (λ db. find_symbol symbol db.pairs) >>= active_or_404

module _ (seed : String → ℕ) (candle_seed hash : String → ℕ → ℕ) (price : String → Decimal) where
  unfoldable pub get_ticker_endpoint :
      Option Ticker
      → Option (Fetched Stats24 × Fetched Stats24)
      → String
      → Action (Ticker × Option Ticker)
  get_ticker_endpoint cached answer symbol =
      market_pair symbol
      >> gets (λ db.
        served cached (build_ticker seed hash answer symbol (price symbol) (db.now / 1000000)))

  unfoldable pub get_stats_24h_endpoint :
      Option Stats
      → Option (Fetched Stats24 × Fetched Stats24)
      → String
      → Action (Stats × Option Stats)
  get_stats_24h_endpoint cached answer symbol =
      market_pair symbol
      >> gets (λ db.
        served cached (build_stats_24h seed hash answer symbol (price symbol) (db.now / 1000000)))

  -- The tickers of the active pairs, each with the answer for its symbol.
  unfoldable pub all_tickers :
      Option (List Ticker)
      → (String → Option (Fetched Stats24 × Fetched Stats24))
      → Action (List Ticker × Option (List Ticker))
  all_tickers cached answer = gets (λ db. served cached (
      map
        (λ (p : TradingPair).
          build_ticker seed hash (answer p.symbol) p.symbol (price p.symbol) (db.now / 1000000))
        (select (λ (p : TradingPair). p.is_active) db.pairs)))

  -- Only the intervals of `INTERVAL_MAP` are asked for.
  abbrev pub asked :
      ℕ
      → Option (Fetched (List Candle) × Fetched (List Candle))
      → Option (Fetched (List Candle) × Fetched (List Candle))
  asked interval answer = if is_some (interval_of interval) then answer else none

  unfoldable pub get_candles :
      Option (Fetched (List Candle) × Fetched (List Candle)) → String → ℕ → ℕ → Action (List Candle)
  get_candles answer symbol interval limit =
      raise_if (not ((leb 1 interval && leb interval 1440) && (leb 1 limit && leb limit 1000)))
        Error.query_invalid
      >> market_pair symbol
      >> gets (λ db.
        get_ohlc candle_seed hash (asked interval answer) symbol interval (db.now / 1000000) limit)

unfoldable pub get_recent_prints :
    Option (Fetched (List TradePrint) × Fetched (List TradePrint))
    → PairState
    → String
    → ℕ
    → Action (List Print)
get_recent_prints answer state symbol limit =
    raise_if (not (leb 1 limit && leb limit 100)) Error.query_invalid
    >> market_pair symbol
    >> pure (recent_prints answer state limit)
