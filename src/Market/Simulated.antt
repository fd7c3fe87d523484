-- ===== src/Market/Simulated.antt =====
-- The simulated price of a pair (backend/app/services/market.py, lines 25 to 52): a base price, moved
-- by a hash of the symbol and the minute. The hash is a parameter.
use crypto_exchange_pro.Prelude.{
  ℕ, ◌*◌, ◌/◌, ◌%◌, ◌+◌, ◌<◌, ◌≡◌, ◌≤◌, ap, String, arith, if◌then◌else◌,
}
use text.Mathlib.Text.{◌==◌ as str_eq}
use native.Mathlib.Nat.{mod-lt, mul-le-mul_left}
use crypto_exchange_pro.Prelude.Int.{pos, sub_ℕ, ◌+ℤ◌, ◌≤ℤ◌}
use crypto_exchange_pro.Prelude.Decimal.{Decimal, ◌·◌, div_half_even, whole}

-- `BASE_PRICES.get(pair_symbol, 100)`.
unfoldable pub base_price : String → Decimal
base_price s =
    if str_eq s "BTC/USD"
    then whole 61500
    else if str_eq s "BTC/USDT"
    then whole 61480
    else if str_eq s "ETH/USD"
    then whole 3350
    else if str_eq s "ETH/USDT"
    then whole 3345
    else whole 100

-- Between -1000 and 1000 ten-thousandths.
abbrev pub spread : ℕ → Decimal
spread seed = sub_ℕ ((seed % 2001) * 1000000000000) 1000000000000000

-- At a time in seconds; `hash` is `_hash_seed` of the symbol and the minute.
unfoldable pub price_at : (String → ℕ → ℕ) → String → ℕ → Decimal
price_at hash pair_symbol seconds =
    base_price pair_symbol · (whole 1 +ℤ spread (hash pair_symbol (seconds / 60)))

factor :
    (seed : ℕ)
    → whole 1 +ℤ sub_ℕ (seed * 1000000000000) 1000000000000000
      ≡ pos (seed * 1000000000000 + 9000000000000000)
unfolding ◌+ℤ◌
factor seed = ground arith

exact : (x : ℕ) → div_half_even (x * 10000000000000000) 10000000000000000 ≡ x
unfolding div_half_even
exact x = ground arith

-- The product of a whole number is exact.
whole_times : (base f : ℕ) → whole base · pos f ≡ pos (base * f)
unfolding ◌·◌
whole_times base f =
    let e : base * 10000000000000000 * f ≡ base * f * 10000000000000000 = omega arith in
    rw e (ap pos (exact (base * f)))

within :
    (base seed : ℕ)
    → seed < 2001
    → let price = whole base · (whole 1 +ℤ sub_ℕ (seed * 1000000000000) 1000000000000000) in
      (pos (base * 9000000000000000) ≤ℤ price) × (price ≤ℤ pos (base * 11000000000000000))
within base seed h =
    let least : 9000000000000000 ≤ seed * 1000000000000 + 9000000000000000 = omega arith in
    let most : seed * 1000000000000 + 9000000000000000 ≤ 11000000000000000 = omega (arith, h) in
    let lower = mul-le-mul_left base least in
    let upper = mul-le-mul_left base most in
    rw (factor seed, whole_times base (seed * 1000000000000 + 9000000000000000))
      (omega (arith, lower), omega (arith, upper))

-- The base price in whole units of the quote asset.
abbrev pub base_units : String → ℕ
base_units s =
    if str_eq s "BTC/USD"
    then 61500
    else if str_eq s "BTC/USDT"
    then 61480
    else if str_eq s "ETH/USD"
    then 3350
    else if str_eq s "ETH/USDT"
    then 3345
    else 100

base_price-whole : (s : String) → base_price s ≡ whole (base_units s)
unfolding base_price
base_price-whole s = ground arith

-- The simulated price of a pair is, at any time and for any hash, between nine tenths and eleven
-- tenths of its base price.
pub price_at_bounds :
    (hash : String → ℕ → ℕ) (symbol : String) (seconds : ℕ)
    → let price = price_at hash symbol seconds in
      let base = base_units symbol in
      (base_price symbol ≡ whole base)
      × (pos (base * 9000000000000000) ≤ℤ price)
      × (price ≤ℤ pos (base * 11000000000000000))
unfolding price_at
price_at_bounds hash symbol seconds =
    let (lower, upper) =
      within (base_units symbol) (hash symbol (seconds / 60) % 2001) (mod-lt _ (omega arith)) in
    (base_price-whole symbol, rw base_price-whole lower, rw base_price-whole upper)
