-- ===== src/Market.antt =====
-- backend/app/services/market.py as the services see it: the live price of a pair, from Binance's
-- cached or fetched price or from the market maker (lines 76 to 91).
pub mod Simulated
pub mod Upstream
pub mod Depth
pub mod Tickers
pub mod Candles
pub mod Ranges
pub mod Hosts
use crypto_exchange_pro.Prelude.{ℕ, String, Option, none, some, ◌+◌, if◌then◌else◌}
use text.Mathlib.Text.{◌==◌ as str_eq}
use crypto_exchange_pro.Prelude.Int.{pos, ◌≤ℤ◌}
use crypto_exchange_pro.Prelude.Decimal.{Decimal}
use crypto_exchange_pro.Session.{Action, ok}

-- The n-th reading of the live price, for a pair's symbol.
abbrev pub Feed : Type 0
Feed = ℕ → String → Decimal

-- What a reading finds: the price in the cache and the one that Binance answers, each by Binance's
-- symbol, and the market maker's mid price.
pub record Sources : Type 0 where
  pub cached : ℕ → String → Option Decimal
  pub fetched : ℕ → String → Option Decimal
  pub mid : ℕ → String → Decimal

-- `PAIR_TO_BINANCE`.
unfoldable pub binance_symbol : String → Option String
binance_symbol s =
    if str_eq s "BTC/USD"
    then some "BTCUSDT"
    else if str_eq s "BTC/USDT"
    then some "BTCUSDT"
    else if str_eq s "ETH/USD"
    then some "ETHUSDT"
    else if str_eq s "ETH/USDT"
    then some "ETHUSDT"
    else none

abbrev pub or_else : Option Decimal → Decimal → Decimal
or_else none other = other
or_else (some price) other = price

abbrev pub binance_price : Sources → ℕ → Option String → Decimal → Decimal
binance_price sources n none other = other
binance_price sources n (some b) other =
    or_else (sources.cached n b) (or_else (sources.fetched n b) other)

unfoldable pub live_price : Sources → Feed
live_price sources n pair_symbol =
    binance_price sources n (binance_symbol pair_symbol) (sources.mid n pair_symbol)

unfoldable pub get_live_price : Feed → String → Action Decimal
get_live_price feed symbol db =
    (ok (feed db.prices_read symbol), record db { prices_read = db.prices_read + 1 })

abbrev pub IsNonneg : Option Decimal → Type 0
IsNonneg none = Unit
IsNonneg (some price) = pos 0 ≤ℤ price

or_else_nonneg :
    (o : Option Decimal) (other : Decimal) → IsNonneg o → pos 0 ≤ℤ other → pos 0 ≤ℤ or_else o other
or_else_nonneg none other h k = k
or_else_nonneg (some price) other h k = h

-- If every source answers prices of zero or more, or none, the live price is zero or more at every
-- reading and for every pair.
pub live_price_nonneg :
    (sources : Sources) (n : ℕ) (symbol : String)
    → ((m : ℕ) (b : String) → IsNonneg (sources.cached m b))
    → ((m : ℕ) (b : String) → IsNonneg (sources.fetched m b))
    → ((m : ℕ) (s : String) → pos 0 ≤ℤ sources.mid m s)
    → pos 0 ≤ℤ live_price sources n symbol
unfolding live_price
live_price_nonneg sources n symbol cached fetched mid = go (binance_symbol symbol)
  where
    go : (b : Option String) → pos 0 ≤ℤ binance_price sources n b (sources.mid n symbol)
    go none = mid n symbol
    go (some b) =
        or_else_nonneg (sources.cached n b) _ (cached n b)
          (or_else_nonneg (sources.fetched n b) _ (fetched n b) (mid n symbol))
