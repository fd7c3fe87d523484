-- ===== src/Market/Tickers.antt =====
-- Tickers and 24-hour statistics (backend/app/services/market.py, lines 128 to 277). `seed` is
-- `_hash_seed` of a text, and `hash` that of a symbol and a minute; `price` is the market maker's
-- price. A time is in seconds. The names of the pair and of its assets are left out of a response.
use Prim.Native.String.{◌++◌ as str_append}
use crypto_exchange_pro.Prelude.{
  ℕ, String, Bool, Option, none, some, List, ◌+◌, ◌-◌, ◌*◌, ◌%◌, if◌then◌else◌, select, sort,
}
use crypto_exchange_pro.Prelude.Int.{pos, ◌+ℤ◌, ◌-ℤ◌, eqb_ℤ}
use crypto_exchange_pro.Prelude.Decimal.{Decimal, ◌·◌, cents, whole}
use crypto_exchange_pro.Models.{TradingPair}
use crypto_exchange_pro.Session.{Db}
use crypto_exchange_pro.Market.{or_else}
use crypto_exchange_pro.Market.Simulated.{price_at}
use crypto_exchange_pro.Market.Upstream.{Fetched, missing, malformed, payload, first_payload}
use crypto_exchange_pro.MarketMaker.{divide, max_decimal, min_decimal}

-- `list_pairs`, in the order of the database's collation.
unfoldable pub list_pairs : (String → String → Bool) → Db → List TradingPair
list_pairs precedes db =
    sort (λ (p q : TradingPair). precedes p.symbol q.symbol)
      (select (λ (p : TradingPair). p.is_active) db.pairs)

-- `a / b if b else 0`.
unfoldable pub ratio : Decimal → Decimal → Decimal
ratio a b = if eqb_ℤ b (pos 0) then pos 0 else or_else (divide a b) (pos 0)

pub record Ticker : Type 0 where
  pub last : Decimal
  pub open_24h : Decimal
  pub high_24h : Decimal
  pub low_24h : Decimal
  pub change_24h : Decimal
  pub volume_24h : Decimal

pub record Stats : Type 0 where
  pub ticker : Ticker
  pub close_24h : Decimal
  pub volume_base_24h : Decimal
  pub trades_24h : ℕ

-- The fields that are read of Binance's answer.
pub record Stats24 : Type 0 where
  pub last_price : Decimal
  pub opening_price : Decimal
  pub high_price : Decimal
  pub low_price : Decimal
  pub price_change_percent : Decimal
  pub quote_volume : Decimal
  pub volume : Decimal
  pub trades : ℕ

-- A fraction in thousandths.
abbrev pub millis : ℕ → Decimal
millis n = pos (n * 10000000000000)

module _ (seed : String → ℕ) (hash : String → ℕ → ℕ) where
  -- The price a day ago.
  abbrev pub open_price : String → ℕ → Decimal
  open_price pair_symbol now = price_at hash pair_symbol (now - 86400)

  abbrev pub volume_quote : String → Decimal
  volume_quote pair_symbol = whole (seed (str_append pair_symbol ":vol") % 4000 + 500)

  unfoldable pub get_ticker : String → Decimal → ℕ → Ticker
  get_ticker pair_symbol price now =
      let opened = open_price pair_symbol now in
      record {
        last = price;
        open_24h = opened;
        high_24h = max_decimal price opened · (whole 1 +ℤ cents 1);
        low_24h = min_decimal price opened · (whole 1 -ℤ cents 1);
        change_24h = ratio (price -ℤ opened) opened;
        volume_24h = volume_quote pair_symbol;
      }

  unfoldable pub get_stats_24h : String → Decimal → ℕ → Stats
  get_stats_24h pair_symbol price now =
      let opened = open_price pair_symbol now in
      let high = max_decimal price opened · (whole 1 +ℤ millis 12) in
      let low = min_decimal price opened · (whole 1 -ℤ millis 12) in
      record {
        ticker = record {
          last = price;
          open_24h = opened;
          high_24h = high;
          low_24h = low;
          change_24h = ratio (price -ℤ opened) opened;
          volume_24h = volume_quote pair_symbol;
        };
        close_24h = price;
        volume_base_24h = ratio (volume_quote pair_symbol) (ratio (high +ℤ low) (whole 2));
        trades_24h = seed (str_append pair_symbol ":trades") % 900 + 120;
      }

  abbrev pub ticker_of : Stats24 → Ticker
  ticker_of data_ = record {
    last = data_.last_price;
    open_24h = data_.opening_price;
    high_24h = data_.high_price;
    low_24h = data_.low_price;
    change_24h = ratio data_.price_change_percent (whole 100);
    volume_24h = data_.quote_volume;
  }

  abbrev pub stats_of : Stats24 → Stats
  stats_of data_ = record {
    ticker = ticker_of data_;
    close_24h = data_.last_price;
    volume_base_24h = data_.volume;
    trades_24h = data_.trades;
  }

  abbrev pub parsed_or : {A B : Type 0} → (A → B) → Fetched A → B → B
  parsed_or parse missing other = other
  parsed_or parse malformed other = other
  parsed_or parse (payload a) other = parse a

  -- `binance` is the answer for Binance's symbol of the pair, cached or fetched, if it has one.
  abbrev pub binance_24hr : Option (Fetched Stats24 × Fetched Stats24) → Fetched Stats24
  binance_24hr none = missing
  binance_24hr (some (cached, fetched)) = first_payload cached fetched

  unfoldable pub build_ticker :
      Option (Fetched Stats24 × Fetched Stats24) → String → Decimal → ℕ → Ticker
  build_ticker binance pair_symbol price now =
      parsed_or ticker_of (binance_24hr binance) (get_ticker pair_symbol price now)

  unfoldable pub build_stats_24h :
      Option (Fetched Stats24 × Fetched Stats24) → String → Decimal → ℕ → Stats
  build_stats_24h binance pair_symbol price now =
      parsed_or stats_of (binance_24hr binance) (get_stats_24h pair_symbol price now)
