-- ===== src/MarketMaker/Layout.antt =====
-- The ladder that a new state is laid out with (backend/app/services/market_maker.py, lines 70 to 81).
use native.Mathlib.Nat.{mul-le-mul_right}
use crypto_exchange_pro.Prelude.{
  ℕ, zero, suc, ◌+◌, ◌*◌, ◌≤◌, ◌≡◌, refl, some, List, [], ◌∷◌, arith, All, ap,
}
use crypto_exchange_pro.Prelude.Int.{pos, negsuc, ◌+ℤ◌, ◌-ℤ◌, ◌≤ℤ◌, int_laws}
use crypto_exchange_pro.Prelude.Decimal.{Decimal, ◌·◌, div_half_even, whole, cents}
use crypto_exchange_pro.MarketMaker.{
  Rng, Level, micros, round_price, new_level, grid_step, layout_from, layout,
}
use crypto_exchange_pro.MarketMaker.Levels.{IsLevel, new_level_returns}
use crypto_exchange_pro.MarketMaker.Ticks.{IsUniform}

exact : (x : ℕ) → div_half_even (x * 10000000000000000) 10000000000000000 ≡ x
unfolding div_half_even
exact x = ground arith

-- A product with a whole number is exact.
times_whole : (f n : ℕ) → pos f · whole n ≡ pos (f * n)
unfolding ◌·◌
times_whole f n =
    let e : f * (n * 10000000000000000) ≡ f * n * 10000000000000000 = omega arith in
    rw e (ap pos (exact (f * n)))

jittered :
    (g j : ℕ)
    → g ≤ 5000000000000000
    → pos j ≤ℤ micros 1400000
    → (pos 0 ≤ℤ pos g · pos j) × (pos g · pos j ≤ℤ micros 700000)
unfolding ◌·◌ div_half_even
jittered g j h high =
    let m : g * j ≤ 5000000000000000 * j = mul-le-mul_right j h in (omega arith, ground (arith, m))

-- The step of turn `i`, with its jitter.
step_bounded :
    (i : ℕ) (jitter : Decimal)
    → i + 1 ≤ 1000
    → micros 700000 ≤ℤ jitter
    → jitter ≤ℤ micros 1400000
    → (pos 0 ≤ℤ grid_step · whole (i + 1) · jitter)
      × (grid_step · whole (i + 1) · jitter ≤ℤ micros 700000)
step_bounded i (pos j) bound low high =
    let e : grid_step · whole (i + 1) ≡ pos (5000000000000 * (i + 1)) =
      times_whole 5000000000000 (i + 1) in
    rw e (jittered (5000000000000 * (i + 1)) j (omega (arith, bound)) high)
step_bounded i (negsuc j) bound low high = absurd (omega arith)

-- A price that the factor takes down to three tenths at most.
price_sound :
    (mid f : Decimal)
    → cents 2 ≤ℤ mid
    → micros 300000 ≤ℤ f
    → (pos 1 ≤ℤ mid · f) × (cents 1 ≤ℤ round_price (mid · f))
unfolding ◌·◌ div_half_even round_price
price_sound (pos m) (pos f) hm hf =
    let least : 200000000000000 ≤ m = omega arith in
    let h : 200000000000000 * f ≤ m * f = mul-le-mul_right f least in
    (ground (arith, h), ground (arith, h))
price_sound (pos m) (negsuc f) hm hf = absurd (omega arith)
price_sound (negsuc m) f hm hf = absurd (omega arith)

below : (d : Decimal) → d ≤ℤ micros 700000 → micros 300000 ≤ℤ whole 1 -ℤ d
unfolding ◌-ℤ◌
below d h = grind (arith, int_laws)

above : (d : Decimal) → pos 0 ≤ℤ d → micros 300000 ≤ℤ whole 1 +ℤ d
unfolding ◌+ℤ◌
above d h = grind (arith, int_laws)

-- The levels of one turn.
module _ (rng : Rng) (mid : Decimal) (two_cents : cents 2 ≤ℤ mid) (i : ℕ) (bound : i + 1 ≤ 1000)
    (jitter : Decimal) (low : micros 700000 ≤ℤ jitter) (high : jitter ≤ℤ micros 1400000)
    (n : ℕ) where
  bid_returns :
      (l : Level) × (n' : ℕ) × (new_level rng mid
          (mid · (whole 1 -ℤ grid_step · whole (i + 1) · jitter))
          n
        ≡ some (l, n'))
      × IsLevel l
  bid_returns =
      let (positive, cent) =
        price_sound mid (whole 1 -ℤ grid_step · whole (i + 1) · jitter) two_cents
          (below _ (step_bounded i jitter bound low high).1) in
      new_level_returns rng mid _ n positive cent

  ask_returns :
      (l : Level) × (n' : ℕ) × (new_level rng mid
          (mid · (whole 1 +ℤ grid_step · whole (i + 1) · jitter))
          n
        ≡ some (l, n'))
      × IsLevel l
  ask_returns =
      let (positive, cent) =
        price_sound mid (whole 1 +ℤ grid_step · whole (i + 1) · jitter) two_cents
          (above _ (step_bounded i jitter bound low high).0) in
      new_level_returns rng mid _ n positive cent

module _ (rng : Rng) (uniform_rng : IsUniform rng) (mid : Decimal)
    (two_cents : cents 2 ≤ℤ mid) where
  -- The loop returns sound levels.
  layout_from_returns :
      (i count n : ℕ)
      → i + count ≤ 1000
      → (bids : List Level) × (asks : List Level) × (n' : ℕ) × (layout_from rng mid i count n
          ≡ some ((bids, asks), n'))
        × All IsLevel bids
        × All IsLevel asks
  unfolding layout_from
  layout_from_returns i zero n bound = ([], [], n, refl, tt, tt)
  layout_from_returns i (suc count) n bound =
      let (low_b, high_b) = uniform_rng n (micros 700000) (micros 1400000) (omega arith) in
      let (low_a, high_a) = uniform_rng (n + 1) (micros 700000) (micros 1400000) (omega arith) in
      let turn : i + 1 ≤ 1000 = omega (arith, bound) in
      let (bid, n1, runs1, bid_ok) =
        bid_returns rng mid two_cents i turn _ low_b high_b (n + 1 + 1) in
      let (ask, n2, runs2, ask_ok) = ask_returns rng mid two_cents i turn _ low_a high_a n1 in
      let (bids, asks, n3, runs3, bids_ok, asks_ok) =
        layout_from_returns (i + 1) count n2 (omega (arith, bound)) in
      (
        bid ∷ bids,
        ask ∷ asks,
        n3,
        rw (runs1, runs2, runs3) refl,
        (bid_ok, bids_ok),
        (ask_ok, asks_ok),
      )

  pub layout_returns :
      (levels n : ℕ)
      → levels ≤ 1000
      → (bids : List Level) × (asks : List Level) × (n' : ℕ) × (layout rng mid levels n
          ≡ some ((bids, asks), n'))
        × All IsLevel bids
        × All IsLevel asks
  unfolding layout
  layout_returns levels n bound = layout_from_returns 0 levels n (omega (arith, bound))
