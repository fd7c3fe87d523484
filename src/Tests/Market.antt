-- ===== src/Tests/Market.antt =====
-- The simulated order book at concrete inputs.
use crypto_exchange_pro.Prelude.{
  ℕ, ◌≤◌, ◌≡◌, refl, List, Option, none, some, [], ◌∷◌, arith, length, sort, map, take, IsSorted,
}
use crypto_exchange_pro.Prelude.Int.{◌-ℤ◌, ◌+ℤ◌, ◌≤ℤ◌}
use crypto_exchange_pro.Prelude.Decimal.{Decimal, ◌·◌, div_half_even, whole, cents}
use crypto_exchange_pro.Market.{Sources, IsNonneg, live_price, binance_symbol}
use crypto_exchange_pro.Prelude.{String, ◌==◌, if◌then◌else◌, Bool-cases, inl, inr}
use crypto_exchange_pro.Prelude.Int.{pos}
use crypto_exchange_pro.Market.Simulated.{base_price, price_at, price_at_bounds}
use crypto_exchange_pro.Prelude.{◌*◌}
use crypto_exchange_pro.MarketMaker.{
  Rng, Level, PairState, Settings, micros, level_qty, divide, to_micros, round_price,
}
use crypto_exchange_pro.MarketMaker.Book.{refill, rebalance, tick_pair, dearer, cheaper}
use crypto_exchange_pro.MarketMaker.Ladder.{IsLadder, rebalance_returns}
use crypto_exchange_pro.MarketMaker.Ticks.{IsUniform, IsState, tick_pair_returns}
use crypto_exchange_pro.MarketMaker.Snapshot.{Snapshot, snapshot, bid_of, ask_of, snapshot_lem}

-- The least value, at every draw.
abbrev pub least : Rng
least n low high = low

pub least-IsUniform : IsUniform least
least-IsUniform n low high h = (omega arith, h)

abbrev level : ℕ → Level
level n = record { price = cents n; qty = whole 1 }

-- Every bid is above the mid price that the book has moved to, 100.00.
abbrev pub drifted : PairState
drifted = record {
  mid = whole 100;
  bids = level 10050 ∷ level 10045 ∷ [];
  asks = level 10065 ∷ [];
  tape = [];
  anchor_ts = 0;
}

abbrev pub settings : Settings
settings = record { levels = 3; tape_maxlen = 2; trade_probability = micros 700000 }

pub drifted-IsState : IsState 2 drifted
drifted-IsState = record {
  bids_sound = ground arith;
  asks_sound = ground arith;
  tape_bounded = omega arith;
}

rebalance_returns_example :
    (state' : PairState) × (n' : ℕ) × (rebalance least 3 drifted (whole 100) 0 ≡ some (state', n'))
    × (state'.mid ≡ whole 100)
    × (state'.tape ≡ [])
    × IsLadder 3 dearer state'.bids
    × IsLadder 3 cheaper state'.asks
rebalance_returns_example =
    rebalance_returns least 3 drifted (whole 100) 0 (omega arith) (ground arith) (ground arith)

tick_pair_returns_example :
    (state' : PairState) × (n' : ℕ) × (tick_pair least settings (whole 101) 90 drifted 0
      ≡ some (state', n'))
    × (cents 1 ≤ℤ state'.mid)
    × IsLadder 3 dearer state'.bids
    × IsLadder 3 cheaper state'.asks
    × (length state'.tape ≤ 2)
tick_pair_returns_example =
    tick_pair_returns least settings (whole 101) 90 drifted 0 least-IsUniform (omega arith)
      (omega arith) drifted-IsState

snapshot_lem_example :
    let bids = sort dearer drifted.bids in
    let asks = sort cheaper drifted.asks in
    (view : Snapshot) × (b : Level) × (a : Level) × (snapshot least settings 10 drifted 0
      ≡ some ((view, drifted), 0))
    × IsSorted dearer bids
    × IsSorted cheaper asks
    × (map bid_of view.levels ≡ take 1 bids)
    × (map ask_of view.levels ≡ take 1 asks)
    × (take 1 bids ≡ b ∷ [])
    × (take 1 asks ≡ a ∷ [])
    × (view.best_bid ≡ b.price)
    × (view.best_ask ≡ a.price)
    × (view.spread ≡ a.price -ℤ b.price)
snapshot_lem_example =
    snapshot_lem least settings 10 drifted 0 (omega arith) (omega arith) (omega arith)

abbrev best_prices : Option (PairState × ℕ) → Option (Decimal × Decimal)
best_prices none = none
best_prices (some (state, n)) = best_of state.bids state.asks
  where
    best_of : List Level → List Level → Option (Decimal × Decimal)
    best_of [] asks = none
    best_of (b ∷ bids) [] = none
    best_of (b ∷ bids) (a ∷ asks) = some (b.price, a.price)

-- The book is crossed: the best bid, 100.50, is above the best ask, 100.05.
crossed_book :
    best_prices (rebalance least 3 drifted (whole 100) 0) ≡ some (cents 10050, cents 10005)
unfolding rebalance refill level_qty divide to_micros round_price ◌·◌ div_half_even ◌-ℤ◌ ◌+ℤ◌
crossed_book = refl

-- Binance answers at the second reading alone.
abbrev sources : Sources
sources = record {
  cached = λ n b. none;
  fetched = λ n b. if n == 1 then some (whole 90) else none;
  mid = λ n s. whole 100;
}

fetched-IsNonneg : (m : ℕ) (b : String) → IsNonneg (sources.fetched m b)
fetched-IsNonneg m b = elim (Bool-cases (m == 1)) [ inl t ↦ rw t (omega arith) | inr f ↦ rw f tt ]

fetched_price : live_price sources 1 "BTC/USDT" ≡ whole 90
unfolding live_price binance_symbol
fetched_price = refl

simulated_price : live_price sources 0 "BTC/USDT" ≡ whole 100
unfolding live_price binance_symbol
simulated_price = refl

-- A hash of 1500 at every minute.
price_at_bounds_example :
    let price = price_at (λ s n. 1500) "BTC/USDT" 60 in
    (base_price "BTC/USDT" ≡ whole 61480)
    × (pos (61480 * 9000000000000000) ≤ℤ price)
    × (price ≤ℤ pos (61480 * 11000000000000000))
price_at_bounds_example = price_at_bounds (λ s n. 1500) "BTC/USDT" 60
