-- ===== src/MarketMaker.antt =====
-- backend/app/services/market_maker.py: the simulated order book and tape of one pair. The random
-- generator and the anchor price are parameters, a draw is known by its number, and `none` is an
-- exception: a division by zero, or the last level of an empty side. Amounts are decimals of 16
-- digits, in which products and quotients are rounded half to even.
pub mod Book
pub mod Levels
pub mod Ladder
pub mod Ticks
pub mod Snapshot
pub mod Layout
pub mod Engine
pub mod Pairs
use crypto_exchange_pro.Prelude.{
  ℕ, zero, suc, Bool, true, false, Option, none, some, List, [], ◌∷◌, ◌++◌, ◌+◌, ◌-◌, ◌*◌, ◌/◌, min,
  leb, ltb, not, ◌==◌, if◌then◌else◌, length, take, select, sort,
}
use crypto_exchange_pro.Prelude.Int.{ℤ, pos, negsuc, ◌+ℤ◌, ◌-ℤ◌, neg_ℤ, ltb_ℤ, leb_ℤ}
use crypto_exchange_pro.Prelude.Decimal.{Decimal, ◌·◌, units, div_half_even, whole}
use crypto_exchange_pro.Models.{OrderSide, buy, sell}

-- `rng.uniform(low, high)`, and `random()` as a draw between 0 and 1.
abbrev pub Rng : Type 0
Rng = ℕ → Decimal → Decimal → Decimal

-- A computation that draws: the number of draws so far goes in and comes out.
abbrev pub Draw : Type 0 → Type 0
Draw A = ℕ → Option (A × ℕ)

abbrev pub next : {A B : Type 0} → Option (A × ℕ) → (A → Draw B) → Option (B × ℕ)
next none f = none
next (some (a, n)) f = f a n

infixl 5 ◌>>=◌
abbrev pub ◌>>=◌ : {A B : Type 0} → Draw A → (A → Draw B) → Draw B
◌>>=◌ m f n = next (m n) f

abbrev pub give : {A : Type 0} → A → Draw A
give a n = some (a, n)

abbrev pub uniform : Rng → Decimal → Decimal → Draw Decimal
uniform rng low high n = some (rng n low high, n + 1)

-- A number of millionths.
abbrev pub micros : ℕ → Decimal
micros n = pos (n * 10000000000)

-- 0.0005, 0.01, 0.002 and 0.15.
abbrev pub grid_step : Decimal
grid_step = micros 500

abbrev pub max_distance : Decimal
max_distance = micros 10000

abbrev pub max_best_gap : Decimal
max_best_gap = micros 2000

abbrev pub reanchor_seconds : ℕ
reanchor_seconds = 60

abbrev pub reanchor_step : Decimal
reanchor_step = micros 150000

-- Hundredths, half up.
abbrev pub to_cents : ℕ → ℕ
to_cents n = ((n + 50000000000000) / 100000000000000) * 100000000000000

unfoldable pub round_price : Decimal → Decimal
round_price (pos n) = pos (to_cents n)
round_price (negsuc n) = neg_ℤ (pos (to_cents (suc n)))

unfoldable pub divide : Decimal → Decimal → Option Decimal
divide a (pos zero) = none
divide (pos a) (pos (suc b)) = some (pos (div_half_even (a * units) (suc b)))
divide (pos a) (negsuc b) = some (neg_ℤ (pos (div_half_even (a * units) (suc b))))
divide (negsuc a) (pos (suc b)) = some (neg_ℤ (pos (div_half_even (suc a * units) (suc b))))
divide (negsuc a) (negsuc b) = some (pos (div_half_even (suc a * units) (suc b)))

abbrev pub max_decimal : Decimal → Decimal → Decimal
max_decimal a b = if ltb_ℤ a b then b else a

abbrev pub min_decimal : Decimal → Decimal → Decimal
min_decimal a b = if ltb_ℤ b a then b else a

-- `quantize(Decimal("0.000001"))`.
unfoldable pub to_micros : Decimal → Decimal
to_micros (pos n) = pos (div_half_even n 10000000000 * 10000000000)
to_micros (negsuc n) = neg_ℤ (pos (div_half_even (suc n) 10000000000 * 10000000000))

pub record Level : Type 0 where
  pub price : Decimal
  pub qty : Decimal

pub record Print : Type 0 where
  pub time : ℕ
  pub price : Decimal
  pub qty : Decimal
  pub side : OrderSide

-- `_PairState`, without the generator.
pub record PairState : Type 0 where
  pub mid : Decimal
  pub bids : List Level
  pub asks : List Level
  pub tape : List Print
  pub anchor_ts : ℕ

pub record Settings : Type 0 where
  pub levels : ℕ
  pub tape_maxlen : ℕ
  pub trade_probability : Decimal

abbrev pub quotient : Option Decimal → Draw Decimal
quotient none n = none
quotient (some q) n = some (q, n)

abbrev pub notional : Rng → Decimal → Draw Decimal
notional rng mid = uniform rng (micros 5000) (micros 30000) >>= λ u. give (mid · u)

-- `_qty`.
unfoldable pub level_qty : Rng → Decimal → Decimal → Draw Decimal
level_qty rng mid price = do
  n ← notional rng mid
  q ← quotient (divide n price)
  give (to_micros (max_decimal q (micros 1)))

abbrev pub new_level : Rng → Decimal → Decimal → Draw Level
new_level rng mid p = level_qty rng mid p >>= λ q. give (record { price = round_price p; qty = q })

-- The turn `i` of the loop of `layout`, and those after it.
unfoldable pub layout_from : Rng → Decimal → ℕ → ℕ → Draw (List Level × List Level)
layout_from rng mid i zero = give ([], [])
layout_from rng mid i (suc count) = do
  jit_b ← uniform rng (micros 700000) (micros 1400000)
  jit_a ← uniform rng (micros 700000) (micros 1400000)
  bid ← new_level rng mid (mid · (whole 1 -ℤ grid_step · whole (i + 1) · jit_b))
  ask ← new_level rng mid (mid · (whole 1 +ℤ grid_step · whole (i + 1) · jit_a))
  rest ← layout_from rng mid (i + 1) count
  give (bid ∷ rest.0, ask ∷ rest.1)

unfoldable pub layout : Rng → Decimal → ℕ → Draw (List Level × List Level)
layout rng mid levels = layout_from rng mid 0 levels

unfoldable pub consume : List Level → Decimal → List Level
consume [] qty = []
consume (top ∷ book) qty =
    if ltb_ℤ (pos 0) (top.qty -ℤ qty) then record top { qty = top.qty -ℤ qty } ∷ book else book

unfoldable pub trade_qty : Rng → Decimal → Decimal → Decimal → Draw Decimal
trade_qty rng mid price top_qty = do
  u ← uniform rng (micros 800) (micros 6000)
  q ← quotient (divide (mid · u) price)
  give (min_decimal (max_decimal q (micros 1)) top_qty)
