-- ===== src/MarketMaker/Ladder.antt =====
-- Rebalancing (backend/app/services/market_maker.py, lines 173 to 196).
use crypto_exchange_pro.Prelude.{
  ℕ, zero, suc, ◌+◌, ◌-◌, ◌≤◌, ◌≡◌, refl, Bool, true, false, some, List, [], ◌∷◌, ◌++◌, arith, All,
  length, length-append, length-sort, sort-IsSorted, IsSorted, All-sort, All-append, All-kept, sort,
}
use crypto_exchange_pro.Prelude.Int.{pos, ◌+ℤ◌, ◌-ℤ◌, ◌≤ℤ◌}
use crypto_exchange_pro.Prelude.Decimal.{Decimal, ◌·◌, whole, cents}
use crypto_exchange_pro.MarketMaker.{Rng, Level, PairState, grid_step, round_price}
use crypto_exchange_pro.MarketMaker.Book.{
  dearer, cheaper, last_level, refill, lacks_bid, lacks_ask, insert_first, pruned_bids, pruned_asks,
  rebalance,
}
use crypto_exchange_pro.MarketMaker.Levels.{IsLevel, new_level_returns, step_down, step_up}

-- A step factor that keeps prices at a cent or more.
abbrev IsStep : Decimal → Type 0
IsStep step =
    (p : Decimal) → cents 1 ≤ℤ p → (pos 1 ≤ℤ p · step) × (cents 1 ≤ℤ round_price (p · step))

last_level_returns :
    (book : List Level) (n : ℕ)
    → 1 ≤ length book
    → All IsLevel book
    → (l : Level) × (last_level book n ≡ some (l, n)) × IsLevel l
last_level_returns [] n h all = absurd (omega arith)
last_level_returns (x ∷ []) n h all = (x, refl, all.0)
last_level_returns (x ∷ y ∷ ys) n h all = last_level_returns (y ∷ ys) n (omega arith) all.1

-- The loop ends, with that many levels more.
refill_returns :
    (rng : Rng) (mid step : Decimal) (missing : ℕ) (book : List Level) (n : ℕ)
    → IsStep step
    → 1 ≤ length book
    → All IsLevel book
    → (book' : List Level) × (n' : ℕ) × (refill rng mid step missing book n ≡ some (book', n'))
      × (length book' ≡ missing + length book)
      × All IsLevel book'
unfolding refill
refill_returns rng mid step zero book n steps some_left all = (book, n, refl, omega arith, all)
refill_returns rng mid step (suc missing) book n steps some_left all =
    let (worst, e, w) = last_level_returns book n some_left all in
    let (positive, cent) = steps worst.price w.0 in
    let (level, n1, runs, l) = new_level_returns rng mid (worst.price · step) n positive cent in
    let longer = book ++ level ∷ [] in
    let size : length longer ≡ length book + 1 = length-append book (level ∷ []) in
    let (book', n2, runs2, size2, all2) =
      refill_returns rng mid step missing longer n1 steps (omega (arith, size))
        (All-append IsLevel book (level ∷ []) all (l, tt)) in
    (book', n2, rw (e, runs, runs2) refl, omega (arith, size, size2), all2)

-- After the insertion there is a best level.
insert_first_returns :
    (rng : Rng) (mid p : Decimal) (lacks : Bool) (book : List Level) (n : ℕ)
    → (pos 1 ≤ℤ p) × (cents 1 ≤ℤ round_price p)
    → (length book ≡ 0 → lacks ≡ true)
    → All IsLevel book
    → (book' : List Level) × (n' : ℕ) × (insert_first rng mid p lacks book n ≡ some (book', n'))
      × (1 ≤ length book')
      × All IsLevel book'
insert_first_returns rng mid p true book n prices filled all =
    let (level, n1, runs, l) = new_level_returns rng mid p n prices.0 prices.1 in
    (level ∷ book, n1, rw runs refl, omega arith, (l, all))
insert_first_returns rng mid p false [] n prices filled all = absurd (cc (filled refl))
insert_first_returns rng mid p false (top ∷ book) n prices filled all =
    (top ∷ book, n, refl, omega arith, all)

-- One side of the book, pruned, given a best level, refilled and sorted.
abbrev pub IsLadder : ℕ → (Level → Level → Bool) → List Level → Type 0
IsLadder levels before book = (levels ≤ length book) × IsSorted before book × All IsLevel book

module _ (before : Level → Level → Bool)
    (asymmetric : (x y : Level) → before x y ≡ true → before y x ≡ false)
    (transitive : (x y z : Level)
      → before y x ≡ false
      → before z y ≡ false
      → before z x ≡ false) where
  sort-IsLadder :
      (levels : ℕ) (book : List Level)
      → levels ≤ length book
      → All IsLevel book
      → IsLadder levels before (sort before book)
  sort-IsLadder levels book h all = (
    omega (arith, length-sort before book),
    sort-IsSorted before asymmetric transitive book,
    All-sort IsLevel before book all,
  )

-- From a mid price of a cent or more, and levels of which each has a price of a cent or more and a
-- quantity above zero, rebalancing returns: both its loops end. The mid price and the tape are as
-- they were, and both sides have at least the number of levels that is asked for, bids from the
-- dearest down and asks from the cheapest up, each level as before priced at a cent or more with a
-- quantity above zero.
pub rebalance_returns :
    (rng : Rng) (levels : ℕ) (state : PairState) (mid : Decimal) (n : ℕ)
    → cents 1 ≤ℤ mid
    → All IsLevel state.bids
    → All IsLevel state.asks
    → (state' : PairState) × (n' : ℕ) × (rebalance rng levels state mid n ≡ some (state', n'))
      × (state'.mid ≡ mid)
      × (state'.tape ≡ state.tape)
      × IsLadder levels dearer state'.bids
      × IsLadder levels cheaper state'.asks
unfolding rebalance
rebalance_returns rng levels state mid n h bids_ok asks_ok =
    let bids = pruned_bids mid state.bids in
    let asks = pruned_asks mid state.asks in
    let (bids1, n1, runs1, some1, ok1) =
      insert_first_returns rng mid (mid · (whole 1 -ℤ grid_step)) (lacks_bid mid bids) bids n
        (step_down mid h) (lacks_bid_empty mid bids) (All-kept IsLevel _ state.bids bids_ok) in
    let (asks1, n2, runs2, some2, ok2) =
      insert_first_returns rng mid (mid · (whole 1 +ℤ grid_step)) (lacks_ask mid asks) asks n1
        (step_up mid h) (lacks_ask_empty mid asks) (All-kept IsLevel _ state.asks asks_ok) in
    let (bids2, n3, runs3, size3, ok3) =
      refill_returns rng mid (whole 1 -ℤ grid_step) (levels - length bids1) bids1 n2 step_down some1
        ok1 in
    let (asks2, n4, runs4, size4, ok4) =
      refill_returns rng mid (whole 1 +ℤ grid_step) (levels - length asks1) asks1 n3 step_up some2
        ok2 in
    (
      record state { mid = mid; bids = sort dearer bids2; asks = sort cheaper asks2 },
      n4,
      rw (runs1, runs2, runs3, runs4) refl,
      refl,
      refl,
      sort-IsLadder dearer (λ x y h. ground arith) (λ x y z f g. ground arith) levels bids2
          (omega (arith, size3)) ok3,
      sort-IsLadder cheaper (λ x y h. ground arith) (λ x y z f g. ground arith) levels asks2
          (omega (arith, size4)) ok4,
    )
  where
    lacks_bid_empty :
        (mid : Decimal) (book : List Level) → length book ≡ 0 → lacks_bid mid book ≡ true
    lacks_bid_empty mid [] e = refl
    lacks_bid_empty mid (top ∷ book) e = absurd (omega arith)

    lacks_ask_empty :
        (mid : Decimal) (book : List Level) → length book ≡ 0 → lacks_ask mid book ≡ true
    lacks_ask_empty mid [] e = refl
    lacks_ask_empty mid (top ∷ book) e = absurd (omega arith)
