-- ===== src/MarketMaker/Ticks.antt =====
-- A tick (backend/app/services/market_maker.py, lines 123 to 151).
use crypto_exchange_pro.Prelude.{
  ℕ, ◌+◌, ◌*◌, ◌≤◌, ◌≡◌, refl, some, List, [], ◌∷◌, arith, All, if◌then◌else◌, Bool-cases, inl, inr,
  length, take, length-take,
}
use native.Mathlib.Nat.{mul-le-mul_right}
use crypto_exchange_pro.Prelude.Int.{pos, negsuc, ◌+ℤ◌, ◌-ℤ◌, ◌≤ℤ◌, neg_ℤ, ltb_ℤ, int_laws}
use crypto_exchange_pro.Prelude.Decimal.{Decimal, ◌·◌, whole, cents, div_half_even}
use crypto_exchange_pro.Models.{OrderSide, buy, sell}
use crypto_exchange_pro.MarketMaker.{
  Rng, Level, Print, PairState, Settings, reanchor_step, micros, consume, trade_qty, max_decimal,
  min_decimal,
}
use crypto_exchange_pro.MarketMaker.Book.{
  dearer, cheaper, reanchor, is_due, print_trade, maybe_trade, direction, book_of, with_book,
  tick_pair,
}
use crypto_exchange_pro.MarketMaker.Levels.{IsLevel, consume-IsLevel, divide_positive}
use crypto_exchange_pro.MarketMaker.Ladder.{IsLadder, rebalance_returns}

-- A part of the way back to the anchor does not undershoot both.
pull_back :
    (mid anchor : Decimal)
    → cents 2 ≤ℤ mid
    → cents 2 ≤ℤ anchor
    → cents 2 ≤ℤ mid +ℤ (anchor -ℤ mid) · reanchor_step
unfolding ◌·◌ div_half_even ◌+ℤ◌ ◌-ℤ◌
pull_back (pos m) (pos a) hm ha = ground arith
pull_back (pos m) (negsuc a) hm ha = absurd (omega arith)
pull_back (negsuc m) (pos a) hm ha = absurd (omega arith)
pull_back (negsuc m) (negsuc a) hm ha = absurd (omega arith)

-- The mid price moves by a tenth of a percent at most.
moved_mid : (m : Decimal) (f : Decimal) → cents 2 ≤ℤ m → micros 999000 ≤ℤ f → cents 1 ≤ℤ m · f
unfolding ◌·◌ div_half_even
moved_mid (pos m) (pos f) hm hf =
    let least : 200000000000000 ≤ m = omega arith in
    let h : 200000000000000 * f ≤ m * f = mul-le-mul_right f least in ground (arith, h)
moved_mid (pos m) (negsuc f) hm hf = absurd (omega arith)
moved_mid (negsuc m) (pos f) hm hf = absurd (omega arith)
moved_mid (negsuc m) (negsuc f) hm hf = absurd (omega arith)

factor_least :
    (side : OrderSide) (drift impact : Decimal)
    → neg_ℤ (micros 600) ≤ℤ drift
    → pos 0 ≤ℤ impact
    → impact ≤ℤ micros 400
    → micros 999000 ≤ℤ whole 1 +ℤ drift +ℤ impact · direction side
unfolding ◌·◌ div_half_even neg_ℤ ◌+ℤ◌
factor_least buy drift (pos i) hd hi hm = ground arith
factor_least sell drift (pos i) hd hi hm = ground arith
factor_least side drift (negsuc i) hd hi hm = absurd (omega arith)

-- `Random.uniform` stays within its bounds.
abbrev pub IsUniform : Rng → Type 0
IsUniform rng =
    (n : ℕ) (low high : Decimal) → low ≤ℤ high → (low ≤ℤ rng n low high) × (rng n low high ≤ℤ high)

-- A state whose levels are sound, with no more prints than the tape holds.
pub record IsState (maxlen : ℕ) (state : PairState) : Type 0 where
  pub bids_sound : All IsLevel state.bids
  pub asks_sound : All IsLevel state.asks
  pub tape_bounded : length state.tape ≤ maxlen

book_of_sound :
    (side : OrderSide) (maxlen : ℕ) (state : PairState)
    → IsState maxlen state
    → All IsLevel (book_of side state)
book_of_sound buy maxlen state s = s.asks_sound
book_of_sound sell maxlen state s = s.bids_sound

with_book_sound :
    (side : OrderSide) (maxlen : ℕ) (state : PairState) (book : List Level) (print : Print)
    → All IsLevel book
    → IsState maxlen state
    → let traded = with_book side book state in
      IsState maxlen (record traded { tape = take maxlen (print ∷ traded.tape) })
with_book_sound buy maxlen state book print all s = record {
  bids_sound = s.bids_sound;
  asks_sound = all;
  tape_bounded = omega (arith, length-take maxlen (print ∷ state.tape));
}
with_book_sound sell maxlen state book print all s = record {
  bids_sound = all;
  asks_sound = s.asks_sound;
  tape_bounded = omega (arith, length-take maxlen (print ∷ state.tape));
}

module _ (rng : Rng) (uniform_rng : IsUniform rng) (maxlen : ℕ) where
  trade_qty_returns :
      (mid price top : Decimal) (n : ℕ)
      → cents 1 ≤ℤ price
      → (q : Decimal) × (trade_qty rng mid price top n ≡ some (q, n + 1))
  unfolding trade_qty
  trade_qty_returns mid price top n h =
      let (q, e) =
        divide_positive (mid · rng n (micros 800) (micros 6000)) price (omega (arith, h)) in
      (min_decimal (max_decimal q (micros 1)) top, rw e refl)

  print_trade_returns :
      (now : ℕ) (side : OrderSide) (state : PairState) (mid : Decimal) (n : ℕ)
      → cents 2 ≤ℤ mid
      → IsState maxlen state
      → (state' : PairState) × (mid' : Decimal) × (n' : ℕ) × (print_trade rng maxlen now side state
            mid
            (book_of side state)
            n
          ≡ some ((state', mid'), n'))
        × (cents 1 ≤ℤ mid')
        × IsState maxlen state'
  print_trade_returns now side state mid n h s =
      go (book_of side state) (book_of_sound side maxlen state s)
    where
      go :
          (book : List Level)
          → All IsLevel book
          → (state' : PairState) × (mid' : Decimal) × (n' : ℕ) × (print_trade rng maxlen now side
                state mid book n
              ≡ some ((state', mid'), n'))
            × (cents 1 ≤ℤ mid')
            × IsState maxlen state'
      go [] all = (state, mid, n, refl, omega (arith, h), s)
      go (top ∷ book) all =
          let (q, e) = trade_qty_returns mid top.price top.qty n all.0.0 in
          let drift = uniform_rng (n + 1) (neg_ℤ (micros 600)) (micros 600) (omega int_laws) in
          let impact = uniform_rng (n + 1 + 1) (micros 100) (micros 400) (omega arith) in
          let traded = with_book side (consume (top ∷ book) q) state in
          let print : Print = record { time = now; price = top.price; qty = q; side = side } in
          let factor =
            whole 1
            +ℤ rng (n + 1) (neg_ℤ (micros 600)) (micros 600)
            +ℤ rng (n + 1 + 1) (micros 100) (micros 400) · direction side in
          (
            record traded { tape = take maxlen (print ∷ traded.tape) },
            mid · factor,
            n + 1 + 1 + 1,
            rw e refl,
            moved_mid mid factor h
                (factor_least side _ _ drift.0 (omega (arith, impact.0)) impact.1),
            with_book_sound side maxlen state _ print (consume-IsLevel (top ∷ book) q all) s,
          )

  maybe_trade_returns :
      (settings : Settings) (now : ℕ) (state : PairState) (mid : Decimal) (n : ℕ)
      → settings.tape_maxlen ≡ maxlen
      → cents 2 ≤ℤ mid
      → IsState maxlen state
      → (state' : PairState) × (mid' : Decimal) × (n' : ℕ) × (maybe_trade rng settings now state mid
            n
          ≡ some ((state', mid'), n'))
        × (cents 1 ≤ℤ mid')
        × IsState maxlen state'
  unfolding maybe_trade
  maybe_trade_returns settings now state mid n e h s =
      elim (Bool-cases (ltb_ℤ (rng n (pos 0) (whole 1)) settings.trade_probability)) [
        | inr f ↦ (state, mid, n + 1, rw f refl, omega (arith, h), s)
        | inl t ↦
            let side =
              if ltb_ℤ (rng (n + 1) (pos 0) (whole 1)) (micros 500000) then buy else sell in
            let (state', mid', n', runs, cent, s') =
              print_trade_returns now side state mid (n + 1 + 1) h s in
            (state', mid', n', rw (t, e) runs, cent, s')
      ]

reanchor_sound :
    (anchor : Decimal) (now maxlen : ℕ) (state : PairState)
    → cents 2 ≤ℤ state.mid
    → cents 2 ≤ℤ anchor
    → IsState maxlen state
    → (cents 2 ≤ℤ (reanchor anchor now state).mid) × IsState maxlen (reanchor anchor now state)
unfolding reanchor
reanchor_sound anchor now maxlen state h ha s = elim (Bool-cases (is_due now state)) [
  | inl t ↦ rw t (
    pull_back state.mid anchor h ha,
    record { bids_sound = s.bids_sound; asks_sound = s.asks_sound; tape_bounded = s.tape_bounded },
  )
  | inr f ↦ rw f (h, s)
]

-- With draws within their bounds, a mid price and an anchor of two cents or more, sound levels and
-- a tape within its bound, a tick returns. Then the mid price is a cent or more, both sides are full
-- and in order, all levels are sound again, and the tape is still within its bound.
pub tick_pair_returns :
    (rng : Rng) (settings : Settings) (anchor : Decimal) (now : ℕ) (state : PairState) (n : ℕ)
    → IsUniform rng
    → cents 2 ≤ℤ state.mid
    → cents 2 ≤ℤ anchor
    → IsState settings.tape_maxlen state
    → (state' : PairState) × (n' : ℕ) × (tick_pair rng settings anchor now state n
        ≡ some (state', n'))
      × (cents 1 ≤ℤ state'.mid)
      × IsLadder settings.levels dearer state'.bids
      × IsLadder settings.levels cheaper state'.asks
      × (length state'.tape ≤ settings.tape_maxlen)
unfolding tick_pair
tick_pair_returns rng settings anchor now state n uniform_rng h ha s =
    let maxlen = settings.tape_maxlen in
    let (h1, s1) = reanchor_sound anchor now maxlen state h ha s in
    let anchored = reanchor anchor now state in
    let (traded, mid, n1, runs, cent, s2) =
      maybe_trade_returns rng uniform_rng maxlen settings now anchored anchored.mid n refl h1 s1 in
    let (state', n2, runs2, is_mid, tape, bids, asks) =
      rebalance_returns rng settings.levels traded mid n1 cent s2.bids_sound s2.asks_sound in
    (state', n2, rw (runs, runs2) refl, rw is_mid cent, bids, asks, rw tape s2.tape_bounded)
