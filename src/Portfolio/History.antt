-- ===== src/Portfolio/History.antt =====
-- The history of a portfolio's value (backend/app/services/portfolio.py, lines 224 to 303): the
-- current balances, from which ledger rows are taken off as the samples go back in time. Past prices
-- are the simulated ones. A wallet or row whose asset is missing is left out.
use crypto_exchange_pro.Prelude.{
  ℕ, zero, suc, String, Bool, false, Option, none, some, List, [], ◌∷◌, ◌++◌, ◌+◌, ◌-◌, ◌*◌, ◌/◌,
  ◌||◌, ◌==◌, ltb, if◌then◌else◌, select, sort, map,
}
use crypto_exchange_pro.Prelude.Int.{pos, ◌+ℤ◌, ◌-ℤ◌, eqb_ℤ}
use crypto_exchange_pro.Prelude.Decimal.{Decimal, ◌·◌, div_half_even}
use crypto_exchange_pro.Models.{Asset, Transaction, Wallet}
use crypto_exchange_pro.Session.{Db}
use crypto_exchange_pro.Market.{Feed}
use crypto_exchange_pro.Market.Simulated.{price_at}
use crypto_exchange_pro.WalletService.Listing.{asset_of}
use crypto_exchange_pro.Portfolio.{QuoteCache, quote_cache, best_pair, is_usd, is_spot_of}

-- An entry of the dictionaries `balance` and `asset_symbols`.
pub record Holding : Type 0 where
  pub asset_id : ℕ
  pub symbol : String
  pub amount : Decimal

abbrev pub add_holding : Wallet → Option Asset → List Holding → List Holding
add_holding w none rest = rest
add_holding w (some asset) rest =
    record { asset_id = w.key.asset_id; symbol = asset.symbol; amount = w.funds.balance } ∷ rest

-- The wallets of one user and type have different assets.
unfoldable pub holdings : List Asset → List Wallet → List Holding
holdings assets [] = []
holdings assets (w ∷ ws) = add_holding w (asset_of w.key.asset_id assets) (holdings assets ws)

unfoldable pub holds : ℕ → List Holding → Bool
holds asset_id [] = false
holds asset_id (h ∷ hs) = h.asset_id == asset_id || holds asset_id hs

abbrev pub take_off : ℕ → Decimal → Holding → Holding
take_off asset_id delta h =
    if h.asset_id == asset_id then record h { amount = h.amount -ℤ delta } else h

-- `balance[asset_id] -= delta`, which raises on a missing key.
unfoldable pub unwrap : ℕ → Decimal → List Holding → Option (List Holding)
unwrap asset_id delta hs =
    if holds asset_id hs then some (map (take_off asset_id delta) hs) else none

-- What the loops carry: the rows from `idx` on, and the balances.
abbrev pub Past : Type 0
Past = List Transaction × List Holding

abbrev pub then_past : {A : Type 0} → Option A → (A → Option Past) → Option Past
then_past none f = none
then_past (some a) f = f a

-- The inner loop: the rows after `ts` are taken off.
unfoldable pub unwind : ℕ → List Transaction → List Holding → Option Past
unwind ts [] hs = some ([], hs)
unwind ts (t ∷ txs) hs =
    let rest = then_past (unwrap t.wallet.asset_id t.delta hs) (unwind ts txs) in
    if ltb ts t.created_at then rest else some (t ∷ txs, hs)

abbrev pub add_price : (String → Decimal) → Decimal → Option String → Decimal → Decimal
add_price price v none total = total
add_price price v (some pair_symbol) total = total +ℤ v · price pair_symbol

abbrev pub add_value : QuoteCache → (String → Decimal) → Holding → Decimal → Decimal
add_value prices price h total =
    if eqb_ℤ h.amount (pos 0)
    then total
    else if is_usd h.symbol
    then total +ℤ h.amount
    else add_price price h.amount (best_pair prices h.symbol) total

-- `usd_value` at the simulated prices of a past time.
unfoldable pub usd_value : QuoteCache → (String → Decimal) → List Holding → Decimal → Decimal
usd_value prices price [] total = total
usd_value prices price (h ∷ hs) total = usd_value prices price hs (add_value prices price h total)

abbrev pub add_live_price : Feed → Decimal → Option String → Decimal × Db → Decimal × Db
add_live_price feed v none (total, db) = (total, db)
add_live_price feed v (some pair_symbol) (total, db) =
    (total +ℤ v · feed db.prices_read pair_symbol, record db { prices_read = db.prices_read + 1 })

abbrev pub add_live_value : Feed → QuoteCache → Holding → Decimal × Db → Decimal × Db
add_live_value feed prices h s =
    if eqb_ℤ h.amount (pos 0)
    then s
    else if is_usd h.symbol
    then (s.0 +ℤ h.amount, s.1)
    else add_live_price feed h.amount (best_pair prices h.symbol) s

-- `usd_value` with `use_live`.
unfoldable pub live_usd_value : Feed → QuoteCache → List Holding → Decimal × Db → Decimal × Db
live_usd_value feed prices [] s = s
live_usd_value feed prices (h ∷ hs) s =
    live_usd_value feed prices hs (add_live_value feed prices h s)

pub record Point : Type 0 where
  pub time : ℕ
  pub value : Decimal

abbrev pub day : ℕ
day = 86400000000

-- What the samples are taken with: the hash of the simulated prices, the candidates, the clock, and
-- the first time and the step of the samples.
pub record Sampling : Type 0 where
  pub hash : String → ℕ → ℕ
  pub prices : QuoteCache
  pub now : ℕ
  pub start : ℕ
  pub step : ℕ

abbrev pub value_at : Sampling → ℕ → List Holding → Decimal
value_at s ts hs = usd_value s.prices (λ pair. price_at s.hash pair (ts / 1000000)) hs (pos 0)

abbrev pub cons_point : Point → Option (List Point) → Option (List Point)
cons_point p none = none
cons_point p (some ps) = some (p ∷ ps)

abbrev pub sample_past :
    Sampling → ℕ → (Past → Option (List Point)) → Option Past → Option (List Point)
sample_past s ts rest none = none
sample_past s ts rest (some past) =
    cons_point (record { time = ts; value = value_at s ts past.1 }) (rest past)

-- The outer loop, from the last sample down to the first.
unfoldable pub samples : Sampling → ℕ → Past → Option (List Point)
samples s zero past = some []
samples s (suc i) past =
    let ts = s.start + s.step * i in
    let rest = samples s i past in
    let taken = sample_past s ts (samples s i) (unwind ts past.0 past.1) in
    if ltb s.now ts then rest else taken

abbrev pub earlier : Point → Point → Bool
earlier p q = ltb p.time q.time

abbrev pub with_last : Point → Option (List Point) → Option (List Point)
with_last p none = none
with_last p (some ps) = some (sort earlier (ps ++ p ∷ []))

abbrev pub newer : Transaction → Transaction → Bool
newer t u = ltb u.created_at t.created_at

abbrev pub is_of : ℕ → Transaction → Bool
is_of user_id t = t.wallet.user_id == user_id

abbrev pub sampling : (String → ℕ → ℕ) → ℕ → ℕ → Db → Sampling
sampling hash days total_points db = record {
  hash = hash;
  prices = quote_cache db.assets db.pairs;
  now = db.now;
  start = db.now - days * day;
  step = div_half_even (days * day) total_points;
}

abbrev pub current_holdings : ℕ → Db → List Holding
current_holdings user_id db = holdings db.assets (select (is_spot_of user_id) db.wallets)

abbrev pub newest_first : ℕ → Db → List Transaction
newest_first user_id db = sort newer (select (is_of user_id) db.transactions)

-- None where the call raises: no sample to divide the days by, or a row of an asset without a wallet.
unfoldable pub get_portfolio_history :
    Feed → (String → ℕ → ℕ) → ℕ → ℕ → ℕ → Db → Option (List Point) × Db
get_portfolio_history feed hash user_id days points_per_day db =
    let total_points = days * points_per_day in
    let s = sampling hash days total_points db in
    let balance = current_holdings user_id db in
    let (value, db') = live_usd_value feed s.prices balance (pos 0, db) in
    if total_points == 0 then (none, db) else (
      with_last (record { time = db.now; value = value })
          (samples s total_points (newest_first user_id db, balance)),
      db',
    )
