-- ===== src/MarketMaker/Levels.antt =====
-- New levels and used-up levels of the simulated book (backend/app/services/market_maker.py,
-- lines 45 to 68 and 162 to 171).
use crypto_exchange_pro.Prelude.{
  ℕ, zero, suc, ◌+◌, ◌≡◌, refl, some, List, [], ◌∷◌, arith, All, Bool-cases, inl, inr,
}
use crypto_exchange_pro.Prelude.Int.{pos, negsuc, ◌+ℤ◌, ◌-ℤ◌, ◌≤ℤ◌, ltb_ℤ}
use crypto_exchange_pro.Prelude.Decimal.{Decimal, ◌·◌, div_half_even, whole, cents}
use crypto_exchange_pro.MarketMaker.{
  Rng, Level, micros, round_price, divide, to_micros, max_decimal, level_qty, new_level, consume,
  grid_step,
}

-- A price of a cent or more, and a quantity above zero.
abbrev pub IsLevel : Level → Type 0
IsLevel l = (cents 1 ≤ℤ l.price) × (pos 1 ≤ℤ l.qty)

max_least : (q : Decimal) → micros 1 ≤ℤ max_decimal q (micros 1)
max_least q = ground arith

to_micros_least : (q : Decimal) → micros 1 ≤ℤ q → pos 1 ≤ℤ to_micros q
unfolding to_micros div_half_even
to_micros_least (pos n) h = ground arith
to_micros_least (negsuc n) h = absurd (omega arith)

pub divide_positive : (a p : Decimal) → pos 1 ≤ℤ p → (q : Decimal) × (divide a p ≡ some q)
unfolding divide
divide_positive (pos a) (pos zero) h = absurd (omega arith)
divide_positive (negsuc a) (pos zero) h = absurd (omega arith)
divide_positive (pos a) (pos (suc b)) h = (_, refl)
divide_positive (negsuc a) (pos (suc b)) h = (_, refl)
divide_positive (pos a) (negsuc b) h = absurd (omega arith)
divide_positive (negsuc a) (negsuc b) h = absurd (omega arith)

-- A level at a positive price that is rounded to a cent or more.
pub new_level_returns :
    (rng : Rng) (mid p : Decimal) (n : ℕ)
    → pos 1 ≤ℤ p
    → cents 1 ≤ℤ round_price p
    → (l : Level) × (n' : ℕ) × (new_level rng mid p n ≡ some (l, n')) × IsLevel l
unfolding level_qty
new_level_returns rng mid p n h r =
    let (q, e) = divide_positive (mid · rng n (micros 5000) (micros 30000)) p h in
    let level : Level = record {
      price = round_price p;
      qty = to_micros (max_decimal q (micros 1));
    } in
    (level, n + 1, rw e refl, (r, to_micros_least _ (max_least q)))

-- A step down or up the grid from a price of a cent or more.
pub step_down :
    (p : Decimal)
    → cents 1 ≤ℤ p
    → let q = p · (whole 1 -ℤ grid_step) in (pos 1 ≤ℤ q) × (cents 1 ≤ℤ round_price q)
unfolding ◌·◌ div_half_even ◌-ℤ◌ round_price
step_down (pos n) h = (ground arith, ground arith)
step_down (negsuc n) h = absurd (omega arith)

pub step_up :
    (p : Decimal)
    → cents 1 ≤ℤ p
    → let q = p · (whole 1 +ℤ grid_step) in (pos 1 ≤ℤ q) × (cents 1 ≤ℤ round_price q)
unfolding ◌·◌ div_half_even ◌+ℤ◌ round_price
step_up (pos n) h = (ground arith, ground arith)
step_up (negsuc n) h = absurd (omega arith)

-- What is left of the best level is above zero, or the level is gone.
pub consume-IsLevel :
    (book : List Level) (qty : Decimal) → All IsLevel book → All IsLevel (consume book qty)
unfolding consume
consume-IsLevel [] qty all = tt
consume-IsLevel (top ∷ book) qty all = elim (Bool-cases (ltb_ℤ (pos 0) (top.qty -ℤ qty))) [
  | inl t ↦ rw t ((all.0.0, ground arith), all.1)
  | inr f ↦ rw f all.1
]
