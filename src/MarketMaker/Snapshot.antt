-- ===== src/MarketMaker/Snapshot.antt =====
-- The order book that is shown (backend/app/services/market_maker.py, lines 198 to 227). The pair's
-- symbol and the timestamp are left out.
use crypto_exchange_pro.Prelude.{
  ℕ, zero, suc, ◌≤◌, ◌≡◌, refl, ap, ◌∙◌, map, take, Bool, true, false, none, some, List, [], ◌∷◌,
  arith, ◌==◌, length, length-sort, sort, sort-IsSorted, IsSorted, min,
}
use crypto_exchange_pro.Prelude.Int.{◌-ℤ◌}
use crypto_exchange_pro.Prelude.Decimal.{Decimal}
use crypto_exchange_pro.MarketMaker.{Rng, Draw, ◌>>=◌, give, Level, PairState, Settings, layout}
use crypto_exchange_pro.MarketMaker.Book.{dearer, cheaper}

pub record Row : Type 0 where
  pub bid : Decimal
  pub bid_qty : Decimal
  pub ask : Decimal
  pub ask_qty : Decimal

pub record Snapshot : Type 0 where
  pub best_bid : Decimal
  pub best_ask : Decimal
  pub spread : Decimal
  pub levels : List Row

-- The levels side by side, the first `n` of them.
abbrev pub rows_of : ℕ → List Level → List Level → List Row
rows_of zero bids asks = []
rows_of (suc n) [] asks = []
rows_of (suc n) (b ∷ bids) [] = []
rows_of (suc n) (b ∷ bids) (a ∷ asks) =
    record { bid = b.price; bid_qty = b.qty; ask = a.price; ask_qty = a.qty } ∷ rows_of n bids asks

-- `bids[0]` and `asks[0]`.
abbrev pub show : ℕ → List Level → List Level → Draw Snapshot
show n (b ∷ bids) (a ∷ asks) draws = some (
  record {
    best_bid = b.price;
    best_ask = a.price;
    spread = a.price -ℤ b.price;
    levels = rows_of n (b ∷ bids) (a ∷ asks);
  },
  draws,
)
show n [] asks draws = none
show n (b ∷ bids) [] draws = none

abbrev pub rows_shown : ℕ → List Level → List Level → ℕ
rows_shown depth bids asks = min depth (min (length bids) (length asks))

-- A book that is used up is laid out again.
abbrev pub rebuilt : Rng → Settings → Bool → PairState → Draw PairState
rebuilt rng settings false state = give state
rebuilt rng settings true state = do
  books ← layout rng state.mid settings.levels
  give (record state { bids = books.0; asks = books.1 })

unfoldable pub snapshot : Rng → Settings → ℕ → PairState → Draw (Snapshot × PairState)
snapshot rng settings depth state = do
  let shown = rows_shown depth (sort dearer state.bids) (sort cheaper state.asks)
  state1 ← rebuilt rng settings (shown == 0) state
  let bids = sort dearer state1.bids
  let asks = sort cheaper state1.asks
  view ← show (rows_shown depth bids asks) bids asks
  give (view, state1)

pub length-rows_of :
    (n : ℕ) (bids asks : List Level)
    → n ≤ length bids
    → n ≤ length asks
    → length (rows_of n bids asks) ≡ n
length-rows_of zero bids asks hb ha = refl
length-rows_of (suc n) [] asks hb ha = absurd (omega arith)
length-rows_of (suc n) (b ∷ bids) [] hb ha = absurd (omega arith)
length-rows_of (suc n) (b ∷ bids) (a ∷ asks) hb ha =
    omega (arith, length-rows_of n bids asks (omega arith) (omega arith))

-- The columns of the rows.
abbrev pub bid_of : Row → Level
bid_of r = record { price = r.bid; qty = r.bid_qty }

abbrev pub ask_of : Row → Level
ask_of r = record { price = r.ask; qty = r.ask_qty }

-- The rows are the first levels of both sides.
pub columns-rows_of :
    (n : ℕ) (bids asks : List Level)
    → n ≤ length bids
    → n ≤ length asks
    → (map bid_of (rows_of n bids asks) ≡ take n bids)
      × (map ask_of (rows_of n bids asks) ≡ take n asks)
columns-rows_of zero bids asks hb ha = (refl, refl)
columns-rows_of (suc n) [] asks hb ha = absurd (omega arith)
columns-rows_of (suc n) (b ∷ bids) [] hb ha = absurd (omega arith)
columns-rows_of (suc n) (b ∷ bids) (a ∷ asks) hb ha =
    let (eb, ea) = columns-rows_of n bids asks (omega arith) (omega arith) in
    (ap (λ ls. b ∷ ls) eb, ap (λ ls. a ∷ ls) ea)

-- The view of two books.
shows :
    (n draws : ℕ) (bids asks : List Level)
    → 1 ≤ length bids
    → 1 ≤ length asks
    → (view : Snapshot) × (b : Level) × (a : Level) × (show n bids asks draws ≡ some (view, draws))
      × (view.levels ≡ rows_of n bids asks)
      × (take 1 bids ≡ b ∷ [])
      × (take 1 asks ≡ a ∷ [])
      × (view.best_bid ≡ b.price)
      × (view.best_ask ≡ a.price)
      × (view.spread ≡ a.price -ℤ b.price)
shows n draws [] asks hb ha = absurd (omega arith)
shows n draws (b ∷ bids) [] hb ha = absurd (omega arith)
shows n draws (b ∷ bids) (a ∷ asks) hb ha = (_, b, a, refl, refl, refl, refl, refl, refl, refl)

-- A snapshot of a book with levels on both sides, at a depth of one or more, returns and changes
-- nothing. Sorted, the bids have the dearest first and the asks the cheapest. The snapshot's rows show the
-- first of each side next to each other, with prices and quantities, as many as the depth and both sides
-- allow; the best bid and the best ask are the prices of the first level of each side, and the spread is
-- their difference.
pub snapshot_lem :
    (rng : Rng) (settings : Settings) (depth : ℕ) (state : PairState) (n : ℕ)
    → 1 ≤ depth
    → 1 ≤ length state.bids
    → 1 ≤ length state.asks
    → let bids = sort dearer state.bids in
      let asks = sort cheaper state.asks in
      let rows = min depth (min (length state.bids) (length state.asks)) in
      (view : Snapshot) × (b : Level) × (a : Level) × (snapshot rng settings depth state n
        ≡ some ((view, state), n))
      × IsSorted dearer bids
      × IsSorted cheaper asks
      × (map bid_of view.levels ≡ take rows bids)
      × (map ask_of view.levels ≡ take rows asks)
      × (take 1 bids ≡ b ∷ [])
      × (take 1 asks ≡ a ∷ [])
      × (view.best_bid ≡ b.price)
      × (view.best_ask ≡ a.price)
      × (view.spread ≡ a.price -ℤ b.price)
unfolding snapshot
snapshot_lem rng settings depth state n hd hb ha =
    let bids = sort dearer state.bids in
    let asks = sort cheaper state.asks in
    let size_b = length-sort dearer state.bids in
    let size_a = length-sort cheaper state.asks in
    let shown = rows_shown depth bids asks in
    let same : shown ≡ min depth (min (length state.bids) (length state.asks)) =
      rw (size_a, size_b) refl in
    let some_shown : (shown == 0) ≡ false = ground (arith, size_a, size_b) in
    let (view, b, a, runs, levels, first_b, first_a, best_b, best_a, spread) =
      shows shown n bids asks (omega (arith, size_b)) (omega (arith, size_a)) in
    let (column_b, column_a) = columns-rows_of shown bids asks (omega arith) (omega arith) in
    (
      view,
      b,
      a,
      rw some_shown (rw runs refl),
      sort-IsSorted dearer (λ x y h. ground arith) (λ x y z f g. ground arith) state.bids,
      sort-IsSorted cheaper (λ x y h. ground arith) (λ x y z f g. ground arith) state.asks,
      ap (map bid_of) levels ∙ column_b ∙ ap (λ m. take m bids) same,
      ap (map ask_of) levels ∙ column_a ∙ ap (λ m. take m asks) same,
      first_b,
      first_a,
      best_b,
      best_a,
      spread,
    )
