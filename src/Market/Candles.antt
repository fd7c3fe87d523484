-- ===== src/Market/Candles.antt =====
-- Candles and the tape (backend/app/services/market.py, lines 94 to 126 and 280 to 325): Binance's if they
-- are there and well formed, else simulated ones. A time is in seconds; the simulated tape is the
-- market maker's. `seed` is `_hash_seed` of a symbol and a number.
use crypto_exchange_pro.Prelude.{
  ℕ, zero, suc, String, Bool, Option, none, some, List, [], ◌∷◌, ◌+◌, ◌-◌, ◌*◌, ◌/◌, ◌%◌, ◌==◌,
  if◌then◌else◌, map, reverse, take,
}
use crypto_exchange_pro.Prelude.Decimal.{Decimal, ◌·◌, whole}
use crypto_exchange_pro.Models.{buy, sell}
use crypto_exchange_pro.MarketMaker.{Print, PairState}
use crypto_exchange_pro.MarketMaker.Book.{recent_trades}
use crypto_exchange_pro.Market.Simulated.{price_at}
use crypto_exchange_pro.Market.Tickers.{millis}
use crypto_exchange_pro.Market.Upstream.{Fetched, missing, malformed, payload, first_payload}

pub record Candle : Type 0 where
  pub time : ℕ
  pub opening : Decimal
  pub high : Decimal
  pub low : Decimal
  pub close : Decimal
  pub volume : Decimal

module _ (seed : String → ℕ → ℕ) (hash : String → ℕ → ℕ) where
  abbrev pub simulated_candle : String → ℕ → ℕ → ℕ → Candle
  simulated_candle pair_symbol interval_minutes now i =
      let candle_ts = now - interval_minutes * i * 60 in
      let price = price_at hash pair_symbol candle_ts in
      record {
        time = candle_ts - candle_ts % 60;
        opening = price;
        high = price · millis 1005;
        low = price · millis 995;
        close = price;
        volume = whole (seed pair_symbol i % 900 + 100);
      }

  -- `range(limit - 1, -1, -1)`, the oldest candle first.
  unfoldable pub simulated_ohlc : String → ℕ → ℕ → ℕ → List Candle
  simulated_ohlc pair_symbol interval_minutes now zero = []
  simulated_ohlc pair_symbol interval_minutes now (suc i) =
      simulated_candle pair_symbol interval_minutes now i
      ∷ simulated_ohlc pair_symbol interval_minutes now i

  -- `if raw:`, which no kline does not pass.
  abbrev pub klines_or : Fetched (List Candle) → List Candle → List Candle
  klines_or missing other = other
  klines_or malformed other = other
  klines_or (payload []) other = other
  klines_or (payload (k ∷ ks)) other = k ∷ ks

  -- `binance` is there for a pair that Binance knows and an interval of `INTERVAL_MAP`.
  unfoldable pub get_ohlc :
      Option (Fetched (List Candle) × Fetched (List Candle)) → String → ℕ → ℕ → ℕ → List Candle
  get_ohlc none pair_symbol interval_minutes now limit =
      simulated_ohlc pair_symbol interval_minutes now limit
  get_ohlc (some (cached, fetched)) pair_symbol interval_minutes now limit =
      klines_or (first_payload cached fetched)
        (simulated_ohlc pair_symbol interval_minutes now limit)

-- `INTERVAL_MAP`.
unfoldable pub interval_of : ℕ → Option String
interval_of minutes =
    if minutes == 1
    then some "1m"
    else if minutes == 5
    then some "5m"
    else if minutes == 15
    then some "15m"
    else if minutes == 60
    then some "1h"
    else none

-- A trade of Binance's answer.
pub record TradePrint : Type 0 where
  pub time : ℕ
  pub price : Decimal
  pub qty : Decimal
  pub is_buyer_maker : Bool

abbrev pub print_of : TradePrint → Print
print_of t = record {
  time = t.time / 1000;
  price = t.price;
  qty = t.qty;
  side = if t.is_buyer_maker then sell else buy;
}

abbrev pub tape_or : ℕ → Fetched (List TradePrint) → List Print → List Print
tape_or limit missing other = other
tape_or limit malformed other = other
tape_or limit (payload []) other = other
tape_or limit (payload (t ∷ ts)) other = take limit (reverse (map print_of (t ∷ ts)))

-- The newest trade first; a fetch asks for at most 100.
unfoldable pub recent_prints :
    Option (Fetched (List TradePrint) × Fetched (List TradePrint)) → PairState → ℕ → List Print
recent_prints none state limit = recent_trades state limit
recent_prints (some (cached, fetched)) state limit =
    tape_or limit (first_payload cached fetched) (recent_trades state limit)
