-- ===== src/Market/Depth.antt =====
-- The order book over HTTP and websocket (backend/app/services/depth.py): Binance's depth if it is
-- there and well formed, else the simulated book. The pair's symbol and the timestamp are left out.
use crypto_exchange_pro.Prelude.{
  ℕ, ◌≤◌, ◌≡◌, refl, false, sym, ◌∙◌, ◌⊎◌, inl, inr, Bool-cases, map, take-take, Option, none, some,
  List, [], ◌∷◌, arith, All, length, length-take, take, min, if◌then◌else◌, ap,
}
use crypto_exchange_pro.Prelude.Int.{◌-ℤ◌, ltb_ℤ}
use crypto_exchange_pro.Prelude.Decimal.{Decimal}
use crypto_exchange_pro.MarketMaker.{Rng, Draw, Level, PairState, Settings}
use crypto_exchange_pro.MarketMaker.Snapshot.{
  Row, Snapshot, rows_of, length-rows_of, columns-rows_of, bid_of, ask_of, snapshot,
}
use crypto_exchange_pro.Market.Upstream.{Fetched, missing, malformed, payload, first_payload}

pub record Depth : Type 0 where
  pub bids : List Level
  pub asks : List Level

-- `max(l["bid"] for l in levels)`.
unfoldable pub max_bid : Decimal → List Row → Decimal
max_bid best [] = best
max_bid best (r ∷ rows) = max_bid (if ltb_ℤ best r.bid then r.bid else best) rows

-- `min(l["ask"] for l in levels)`.
unfoldable pub min_ask : Decimal → List Row → Decimal
min_ask best [] = best
min_ask best (r ∷ rows) = min_ask (if ltb_ℤ r.ask best then r.ask else best) rows

abbrev pub depth_rows : ℕ → Depth → List Row
depth_rows depth d =
    let bids = take depth d.bids in
    let asks = take depth d.asks in rows_of (min (length bids) (length asks)) bids asks

-- The view of the rows, if there is one.
abbrev pub view_of : List Row → Option Snapshot
view_of [] = none
view_of (r ∷ rows) =
    let best_bid = max_bid r.bid rows in
    let best_ask = min_ask r.ask rows in
    some (record {
      best_bid = best_bid;
      best_ask = best_ask;
      spread = best_ask -ℤ best_bid;
      levels = r ∷ rows;
    })

abbrev pub parsed_view : ℕ → Fetched Depth → Option Snapshot
parsed_view depth missing = none
parsed_view depth malformed = none
parsed_view depth (payload d) = view_of (depth_rows depth d)

abbrev pub or_simulated :
    Rng → Settings → ℕ → PairState → Option Snapshot → Draw (Snapshot × PairState)
or_simulated rng settings depth state none draws = snapshot rng settings depth state draws
or_simulated rng settings depth state (some view) draws = some ((view, state), draws)

-- `binance` is Binance's symbol of the pair, with the depth in the cache and the one that is fetched.
unfoldable pub order_book :
    Rng
    → Settings
    → Option (Fetched Depth × Fetched Depth)
    → ℕ
    → PairState
    → Draw (Snapshot × PairState)
order_book rng settings none depth state = or_simulated rng settings depth state none
order_book rng settings (some (cached, fetched)) depth state =
    or_simulated rng settings depth state (parsed_view depth (first_payload cached fetched))

-- One of the values.
abbrev pub Attains : (Row → Decimal) → Decimal → List Row → Type 0
Attains value x [] = ⊥
Attains value x (r ∷ rows) = (x ≡ value r) ⊎ Attains value x rows

-- The fold is no less than where it starts, nor than any of the rows, and it is one of them.
max_bid-bounds :
    (best : Decimal) (rows : List Row)
    → (ltb_ℤ (max_bid best rows) best ≡ false)
      × All (λ (r : Row). ltb_ℤ (max_bid best rows) r.bid ≡ false) rows
unfolding max_bid
max_bid-bounds best [] = (ground arith, tt)
max_bid-bounds best (r ∷ rows) =
    let (start, all) = max_bid-bounds (if ltb_ℤ best r.bid then r.bid else best) rows in
    (ground (arith, start), (ground (arith, start), all))

max_bid-Attains :
    (best : Decimal) (rows : List Row) (x : Decimal)
    → max_bid best rows ≡ x
    → (x ≡ best) ⊎ Attains (λ r. r.bid) x rows
unfolding max_bid
max_bid-Attains best [] x e = inl (sym e)
max_bid-Attains best (r ∷ rows) x e = elim (Bool-cases (ltb_ℤ best r.bid)) [
  | inl t ↦ inr (max_bid-Attains r.bid rows x (rw t at e))
  | inr f ↦ elim (max_bid-Attains best rows x (rw f at e)) [ inl h ↦ inl h | inr a ↦ inr (inr a) ]
]

min_ask-bounds :
    (best : Decimal) (rows : List Row)
    → (ltb_ℤ best (min_ask best rows) ≡ false)
      × All (λ (r : Row). ltb_ℤ r.ask (min_ask best rows) ≡ false) rows
unfolding min_ask
min_ask-bounds best [] = (ground arith, tt)
min_ask-bounds best (r ∷ rows) =
    let (start, all) = min_ask-bounds (if ltb_ℤ r.ask best then r.ask else best) rows in
    (ground (arith, start), (ground (arith, start), all))

min_ask-Attains :
    (best : Decimal) (rows : List Row) (x : Decimal)
    → min_ask best rows ≡ x
    → (x ≡ best) ⊎ Attains (λ r. r.ask) x rows
unfolding min_ask
min_ask-Attains best [] x e = inl (sym e)
min_ask-Attains best (r ∷ rows) x e = elim (Bool-cases (ltb_ℤ r.ask best)) [
  | inl t ↦ inr (min_ask-Attains r.ask rows x (rw t at e))
  | inr f ↦ elim (min_ask-Attains best rows x (rw f at e)) [ inl h ↦ inl h | inr a ↦ inr (inr a) ]
]

-- The best bid is the highest of the rows' bids, the best ask the lowest of their asks.
pub record IsBest (view : Snapshot) (rows : List Row) : Type 0 where
  pub no_bid_above : All (λ (r : Row). ltb_ℤ view.best_bid r.bid ≡ false) rows
  pub is_bid : Attains (λ r. r.bid) view.best_bid rows
  pub no_ask_below : All (λ (r : Row). ltb_ℤ r.ask view.best_ask ≡ false) rows
  pub is_ask : Attains (λ r. r.ask) view.best_ask rows

view_of_lem :
    (rows : List Row)
    → 1 ≤ length rows
    → (view : Snapshot) × (view_of rows ≡ some view)
      × (view.levels ≡ rows)
      × (view.spread ≡ view.best_ask -ℤ view.best_bid)
      × IsBest view rows
view_of_lem [] h = absurd (omega arith)
view_of_lem (r ∷ rows) h = (
  _,
  refl,
  refl,
  refl,
  record {
    no_bid_above = max_bid-bounds r.bid rows;
    is_bid = max_bid-Attains r.bid rows _ refl;
    no_ask_below = min_ask-bounds r.ask rows;
    is_ask = min_ask-Attains r.ask rows _ refl;
  },
)

-- For a pair that Binance knows, if the cached depth, or else the fetched one, is well formed, with
-- levels on both sides, then at a depth of one or more the view is made of it, and the simulated book
-- stays as it is: its rows show the depth's first bids and its first asks next to each other, with prices
-- and quantities, as many as the depth and both sides allow; the best bid is the highest of the bids shown,
-- the best ask the lowest of the asks shown, and the spread their difference.
pub order_book_lem :
    (rng : Rng) (settings : Settings) (cached fetched : Fetched Depth) (d : Depth) (depth : ℕ)
    (state : PairState) (draws : ℕ)
    → first_payload cached fetched ≡ payload d
    → 1 ≤ depth
    → 1 ≤ length d.bids
    → 1 ≤ length d.asks
    → let rows = min depth (min (length d.bids) (length d.asks)) in
      (view : Snapshot) × (order_book rng settings (some (cached, fetched)) depth state draws
        ≡ some ((view, state), draws))
      × (map bid_of view.levels ≡ take rows d.bids)
      × (map ask_of view.levels ≡ take rows d.asks)
      × (view.spread ≡ view.best_ask -ℤ view.best_bid)
      × IsBest view view.levels
unfolding order_book
order_book_lem rng settings cached fetched d depth state draws e hd hb ha =
    let bids = take depth d.bids in
    let asks = take depth d.asks in
    let size_b = length-take depth d.bids in
    let size_a = length-take depth d.asks in
    let n = min (length bids) (length asks) in
    let m = min depth (min (length d.bids) (length d.asks)) in
    let same : n ≡ m = omega (arith, size_a, size_b) in
    let (column_b, column_a) = columns-rows_of n bids asks (omega arith) (omega arith) in
    let size = length-rows_of n bids asks (omega arith) (omega arith) in
    let (view, viewed, rows, spread, best) =
      view_of_lem (depth_rows depth d) (omega (arith, size, size_a, size_b)) in
    (
      view,
      rw e (rw viewed refl),
      ap (map bid_of) rows
          ∙ column_b
          ∙ ap (λ k. take k bids) same
          ∙ take-take m depth d.bids (omega arith),
      ap (map ask_of) rows
          ∙ column_a
          ∙ ap (λ k. take k asks) same
          ∙ take-take m depth d.asks (omega arith),
      spread,
      rw rows best,
    )
