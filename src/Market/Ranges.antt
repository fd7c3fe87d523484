-- ===== src/Market/Ranges.antt =====
-- The ranges of simulated tickers, statistics and candles (backend/app/services/market.py).
use crypto_exchange_pro.Prelude.{ℕ, zero, suc, String, ◌-◌, ◌*◌, ◌≤◌, ◌≡◌, refl, arith, All, length}
use native.Mathlib.Nat.{mul-le-mul_left}
use crypto_exchange_pro.Prelude.Int.{pos, negsuc, ◌+ℤ◌, ◌-ℤ◌, ◌≤ℤ◌}
use crypto_exchange_pro.Prelude.Decimal.{Decimal, ◌·◌, div_half_even}
use crypto_exchange_pro.Market.Simulated.{price_at, price_at_bounds}
use crypto_exchange_pro.Market.Tickers.{open_price, get_ticker, get_stats_24h}
use crypto_exchange_pro.Market.Candles.{Candle, simulated_ohlc}
use crypto_exchange_pro.MarketMaker.{max_decimal, min_decimal}

div_half_even-grows : (a n : ℕ) → a * 10000000000000000 ≤ n → a ≤ div_half_even n 10000000000000000
unfolding div_half_even
div_half_even-grows a n h = ground (arith, h)

div_half_even-shrinks :
    (a n : ℕ) → n ≤ a * 10000000000000000 → div_half_even n 10000000000000000 ≤ a
unfolding div_half_even
div_half_even-shrinks a n h = ground (arith, h)

-- A factor of one or more, or of one or less, on a price of zero or more.
grows : (a : Decimal) (k : ℕ) → pos 0 ≤ℤ a → 10000000000000000 ≤ k → a ≤ℤ a · pos k
unfolding ◌·◌
grows (pos a) k h more =
    let scaled = mul-le-mul_left a more in
    let grown = div_half_even-grows a (a * k) scaled in omega (arith, grown)
grows (negsuc a) k h more = absurd (omega arith)

shrinks : (a : Decimal) (k : ℕ) → pos 0 ≤ℤ a → k ≤ 10000000000000000 → a · pos k ≤ℤ a
unfolding ◌·◌
shrinks (pos a) k h less =
    let scaled = mul-le-mul_left a less in
    let shrunk = div_half_even-shrinks a (a * k) scaled in omega (arith, shrunk)
shrinks (negsuc a) k h less = absurd (omega arith)

price_at_nonneg :
    (hash : String → ℕ → ℕ) (symbol : String) (now : ℕ) → pos 0 ≤ℤ price_at hash symbol now
price_at_nonneg hash symbol now =
    let (base, lower, upper) = price_at_bounds hash symbol now in omega (arith, lower)

abbrev pub IsRange : Decimal → Decimal → Decimal → Type 0
IsRange low price high = (low ≤ℤ price) × (price ≤ℤ high)

-- The greater price with a factor of one or more, and the lesser with one of one or less.
max_decimal-IsRange :
    (p q : Decimal) (more less : ℕ)
    → pos 0 ≤ℤ p
    → pos 0 ≤ℤ q
    → 10000000000000000 ≤ more
    → less ≤ 10000000000000000
    → let high = max_decimal p q · pos more in
      let low = min_decimal p q · pos less in IsRange low p high × IsRange low q high
max_decimal-IsRange p q more less hp hq hm hl =
    let high = grows (max_decimal p q) more (ground (arith, hp, hq)) hm in
    let low = shrinks (min_decimal p q) less (ground (arith, hp, hq)) hl in
    ((ground (arith, low), ground (arith, high)), (ground (arith, low), ground (arith, high)))

-- At a market maker's price of zero or more, the lows and highs of the simulated ticker and of the
-- simulated statistics enclose the last price and the price a day ago.
pub get_ticker_ranges :
    (seed : String → ℕ) (hash : String → ℕ → ℕ) (symbol : String) (price : Decimal) (now : ℕ)
    → pos 0 ≤ℤ price
    → let t = get_ticker seed hash symbol price now in
      let s = (get_stats_24h seed hash symbol price now).ticker in
      IsRange t.low_24h t.last t.high_24h
      × IsRange t.low_24h t.open_24h t.high_24h
      × IsRange s.low_24h s.last s.high_24h
      × IsRange s.low_24h s.open_24h s.high_24h
unfolding get_ticker get_stats_24h ◌+ℤ◌ ◌-ℤ◌
get_ticker_ranges seed hash symbol price now h =
    let opened = open_price seed hash symbol now in
    let positive = price_at_nonneg hash symbol (now - 86400) in
    let (last, opening) =
      max_decimal-IsRange price opened 10100000000000000 9900000000000000 h positive (omega arith)
        (omega arith) in
    let (last_stats, opening_stats) =
      max_decimal-IsRange price opened 10120000000000000 9880000000000000 h positive (omega arith)
        (omega arith) in
    (last, opening, last_stats, opening_stats)

-- There are as many simulated candles as were asked for, and each one's low and high enclose its
-- opening price, which is also its close.
pub simulated_ohlc_lem :
    (seed hash : String → ℕ → ℕ) (symbol : String) (interval now limit : ℕ)
    → let candles = simulated_ohlc seed hash symbol interval now limit in
      (length candles ≡ limit)
      × All (λ (c : Candle). IsRange c.low c.opening c.high × (c.close ≡ c.opening)) candles
unfolding simulated_ohlc
simulated_ohlc_lem seed hash symbol interval now zero = (refl, tt)
simulated_ohlc_lem seed hash symbol interval now (suc i) =
    let (count, all) = simulated_ohlc_lem seed hash symbol interval now i in
    let ts = now - interval * i * 60 in
    let positive = price_at_nonneg hash symbol ts in
    let low = shrinks (price_at hash symbol ts) 9950000000000000 positive (omega arith) in
    let high = grows (price_at hash symbol ts) 10050000000000000 positive (omega arith) in
    (omega (arith, count), (((low, high), refl), all))
