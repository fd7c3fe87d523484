-- ===== src/MarketMaker/Book.antt =====
-- The ticks and the readings of backend/app/services/market_maker.py (lines 123 to 240).
use crypto_exchange_pro.Prelude.{
  ℕ, zero, suc, Bool, true, false, none, some, List, [], ◌∷◌, ◌++◌, ◌-◌, leb, if◌then◌else◌, length,
  take, select, sort,
}
use crypto_exchange_pro.Prelude.Int.{pos, ◌+ℤ◌, ◌-ℤ◌, neg_ℤ, ltb_ℤ, leb_ℤ}
use crypto_exchange_pro.Prelude.Decimal.{Decimal, ◌·◌, whole}
use crypto_exchange_pro.Models.{OrderSide, buy, sell}
use crypto_exchange_pro.MarketMaker.{
  Rng, Draw, ◌>>=◌, give, uniform, Level, Print, PairState, Settings, grid_step, max_distance,
  max_best_gap, reanchor_seconds, reanchor_step, micros, new_level, consume, trade_qty,
}

abbrev pub dearer : Level → Level → Bool
dearer a b = ltb_ℤ b.price a.price

abbrev pub cheaper : Level → Level → Bool
cheaper a b = ltb_ℤ a.price b.price

abbrev pub last_level : List Level → Draw Level
last_level [] n = none
last_level (x ∷ []) n = some (x, n)
last_level (x ∷ y ∷ ys) n = last_level (y ∷ ys) n

-- The `while` loop that appends `missing` levels, each a step from the last one.
unfoldable pub refill : Rng → Decimal → Decimal → ℕ → List Level → Draw (List Level)
refill rng mid step zero book = give book
refill rng mid step (suc missing) book = do
  worst ← last_level book
  level ← new_level rng mid (worst.price · step)
  refill rng mid step missing (book ++ level ∷ [])

-- The best level is missing, or too far from the mid price.
abbrev pub lacks_bid : Decimal → List Level → Bool
lacks_bid mid [] = true
lacks_bid mid (top ∷ book) = ltb_ℤ top.price (mid · (whole 1 -ℤ max_best_gap))

abbrev pub lacks_ask : Decimal → List Level → Bool
lacks_ask mid [] = true
lacks_ask mid (top ∷ book) = ltb_ℤ (mid · (whole 1 +ℤ max_best_gap)) top.price

abbrev pub insert_first : Rng → Decimal → Decimal → Bool → List Level → Draw (List Level)
insert_first rng mid p false book = give book
insert_first rng mid p true book = new_level rng mid p >>= λ level. give (level ∷ book)

abbrev pub pruned_bids : Decimal → List Level → List Level
pruned_bids mid bids = select (λ l. leb_ℤ (mid · (whole 1 -ℤ max_distance)) l.price) bids

abbrev pub pruned_asks : Decimal → List Level → List Level
pruned_asks mid asks = select (λ l. leb_ℤ l.price (mid · (whole 1 +ℤ max_distance))) asks

unfoldable pub rebalance : Rng → ℕ → PairState → Decimal → Draw PairState
rebalance rng levels state mid = do
  let bids = pruned_bids mid state.bids
  let asks = pruned_asks mid state.asks
  bids1 ← insert_first rng mid (mid · (whole 1 -ℤ grid_step)) (lacks_bid mid bids) bids
  asks1 ← insert_first rng mid (mid · (whole 1 +ℤ grid_step)) (lacks_ask mid asks) asks
  bids2 ← refill rng mid (whole 1 -ℤ grid_step) (levels - length bids1) bids1
  asks2 ← refill rng mid (whole 1 +ℤ grid_step) (levels - length asks1) asks1
  give (record state { mid = mid; bids = sort dearer bids2; asks = sort cheaper asks2 })

abbrev pub book_of : OrderSide → PairState → List Level
book_of buy state = state.asks
book_of sell state = state.bids

abbrev pub with_book : OrderSide → List Level → PairState → PairState
with_book buy book state = record state { asks = book }
with_book sell book state = record state { bids = book }

abbrev pub direction : OrderSide → Decimal
direction buy = whole 1
direction sell = neg_ℤ (whole 1)

-- A print at the best price of the side's book, and the mid price that it moves.
abbrev pub print_trade :
    Rng → ℕ → ℕ → OrderSide → PairState → Decimal → List Level → Draw (PairState × Decimal)
print_trade rng maxlen now side state mid [] = give (state, mid)
print_trade rng maxlen now side state mid (top ∷ book) = do
  qty ← trade_qty rng mid top.price top.qty
  drift ← uniform rng (neg_ℤ (micros 600)) (micros 600)
  impact ← uniform rng (micros 100) (micros 400)
  let traded = with_book side (consume (top ∷ book) qty) state
  let print : Print = record { time = now; price = top.price; qty = qty; side = side }
  give (
    record traded { tape = take maxlen (print ∷ traded.tape) },
    mid · (whole 1 +ℤ drift +ℤ impact · direction side),
  )

-- The turn of the loop of trades: `random() < trade_probability`, then the side.
unfoldable pub maybe_trade : Rng → Settings → ℕ → PairState → Decimal → Draw (PairState × Decimal)
maybe_trade rng settings now state mid = do
  chance ← uniform rng (pos 0) (whole 1)
  if ltb_ℤ chance settings.trade_probability
      then (do
        toss ← uniform rng (pos 0) (whole 1)
        let side = if ltb_ℤ toss (micros 500000) then buy else sell
        print_trade rng settings.tape_maxlen now side state mid (book_of side state))
      else give (state, mid)

abbrev pub is_due : ℕ → PairState → Bool
is_due now state = leb reanchor_seconds (now - state.anchor_ts)

unfoldable pub reanchor : Decimal → ℕ → PairState → PairState
reanchor anchor now state =
    if is_due now state
    then record state { mid = state.mid +ℤ (anchor -ℤ state.mid) · reanchor_step; anchor_ts = now }
    else state

unfoldable pub tick_pair : Rng → Settings → Decimal → ℕ → PairState → Draw PairState
tick_pair rng settings anchor now state = do
  let anchored = reanchor anchor now state
  (traded, mid) ← maybe_trade rng settings now anchored anchored.mid
  rebalance rng settings.levels traded mid

unfoldable pub recent_trades : PairState → ℕ → List Print
recent_trades state limit = take limit state.tape
