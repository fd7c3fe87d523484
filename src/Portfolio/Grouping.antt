-- ===== src/Portfolio/Grouping.antt =====
-- The volume report against sums over the trades themselves.
use crypto_exchange_pro.Prelude.{
  String, Bool, true, false, Option, none, some, List, [], ◌∷◌, ◌≡◌, refl, ap, ◌∙◌, ◌&&◌, ◌||◌,
  if◌then◌else◌, arith, Bool-cases, inl, inr,
}
use text.Mathlib.Text.{◌==◌ as str_eq}
use text.Mathlib.TextEquality.{eq_iff}
use crypto_exchange_pro.Prelude.Int.{pos, ◌+ℤ◌, int_laws}
use crypto_exchange_pro.Prelude.Sums.{sum_by}
use crypto_exchange_pro.Prelude.Decimal.{Decimal}
use crypto_exchange_pro.Models.{OrderSide, buy, sell, side_eq, Trade, TradingPair}
use crypto_exchange_pro.Tables.Orders.{find_pair}
use crypto_exchange_pro.Portfolio.Volume.{
  VolumeRow, VolumeReport, PairVolume, group_trade, group_joined, grouped, add_row, no_volume,
  add_to_pair, add_rows,
}

pub side_eq-eq : (s t : OrderSide) → side_eq s t ≡ true → s ≡ t
side_eq-eq buy buy e = refl
side_eq-eq buy sell e = cc
side_eq-eq sell buy e = cc
side_eq-eq sell sell e = refl

abbrev pub notional_of : OrderSide → PairVolume → Decimal
notional_of buy p = p.buy_notional
notional_of sell p = p.sell_notional

-- What a trade counts for a pair and a side.
abbrev pub traded_by : OrderSide → String → Trade → Option TradingPair → Decimal
traded_by side symbol t none = pos 0
traded_by side symbol t (some pair) =
    if str_eq pair.symbol symbol && side_eq t.side side then t.notional else pos 0

-- The user's trades of a pair on one side.
abbrev pub traded : OrderSide → String → List TradingPair → List Trade → Decimal
traded side symbol pairs =
    sum_by (λ (t : Trade). traded_by side symbol t (find_pair t.pair_id pairs))

abbrev pub joined_notional : Trade → Option TradingPair → Decimal
joined_notional t none = pos 0
joined_notional t (some pair) = t.notional

add_row-notional :
    (side s : OrderSide) (r : VolumeRow) (p : PairVolume)
    → notional_of side (add_row s r p)
      ≡ (if side_eq s side then r.notional else pos 0) +ℤ notional_of side p
add_row-notional buy buy r p = grind int_laws
add_row-notional buy sell r p = grind int_laws
add_row-notional sell buy r p = grind int_laws
add_row-notional sell sell r p = grind int_laws

pub add_row-pair : (s : OrderSide) (r : VolumeRow) (p : PairVolume) → (add_row s r p).pair ≡ p.pair
add_row-pair buy r p = refl
add_row-pair sell r p = refl

no_volume-notional : (side : OrderSide) (s : String) → notional_of side (no_volume s) ≡ pos 0
no_volume-notional buy s = refl
no_volume-notional sell s = refl

module _ (side : OrderSide) (symbol : String) where
  abbrev pub row_notional : VolumeRow → Decimal
  row_notional r = if str_eq r.symbol symbol && side_eq r.side side then r.notional else pos 0

  abbrev pub pair_notional : PairVolume → Decimal
  pair_notional p = if str_eq p.pair symbol then notional_of side p else pos 0

  group_trade-sum :
      (s : String) (t : Trade) (rows : List VolumeRow)
      → sum_by row_notional (group_trade s t rows)
        ≡ (if str_eq s symbol && side_eq t.side side then t.notional else pos 0)
          +ℤ sum_by row_notional rows
  unfolding group_trade sum_by
  group_trade-sum s t [] = refl
  group_trade-sum s t (r ∷ rows) = elim (Bool-cases (str_eq r.symbol s && side_eq r.side t.side)) [
    | inr f ↦ rw f (grind (int_laws, group_trade-sum s t rows))
    | inl e ↦
        let same : r.symbol ≡ s = (eq_iff r.symbol s).0 (ground (arith, e)) in
        let same_side : r.side ≡ t.side = side_eq-eq r.side t.side (ground (arith, e)) in
        rw (e, same, same_side) (grind int_laws)
  ]

  pub grouped-sum :
      (pairs : List TradingPair) (ts : List Trade)
      → sum_by row_notional (grouped pairs ts) ≡ traded side symbol pairs ts
  unfolding grouped sum_by
  grouped-sum pairs [] = refl
  grouped-sum pairs (t ∷ ts) = go (find_pair t.pair_id pairs) (grouped-sum pairs ts)
    where
      go :
          (p : Option TradingPair)
          → sum_by row_notional (grouped pairs ts) ≡ traded side symbol pairs ts
          → sum_by row_notional (group_joined p t (grouped pairs ts))
            ≡ traded_by side symbol t p +ℤ traded side symbol pairs ts
      go none rest = grind (int_laws, rest)
      go (some p) rest = group_trade-sum p.symbol t (grouped pairs ts) ∙ ap (◌+ℤ◌ _) rest

  -- A row's sums go to the entry of its pair.
  to_entry :
      (r : VolumeRow) (p : PairVolume)
      → p.pair ≡ r.symbol
      → pair_notional (add_row r.side r p) ≡ row_notional r +ℤ pair_notional p
  to_entry r p e =
      rw (add_row-pair r.side r p, add_row-notional side r.side r p, e) (grind int_laws)

  add_to_pair-sum :
      (r : VolumeRow) (ps : List PairVolume)
      → sum_by pair_notional (add_to_pair r ps) ≡ row_notional r +ℤ sum_by pair_notional ps
  unfolding add_to_pair sum_by
  add_to_pair-sum r [] =
      let first = to_entry r (no_volume r.symbol) refl in
      rw (first, no_volume-notional side r.symbol) (grind int_laws)
  add_to_pair-sum r (p ∷ ps) = elim (Bool-cases (str_eq p.pair r.symbol)) [
    | inl e ↦
        let first = to_entry r p ((eq_iff p.pair r.symbol).0 e) in rw (e, first) (grind int_laws)
    | inr f ↦ rw f (grind (int_laws, add_to_pair-sum r ps))
  ]

  pub add_rows-sum :
      (rows : List VolumeRow) (v : VolumeReport)
      → sum_by pair_notional (add_rows rows v).pairs
        ≡ sum_by row_notional rows +ℤ sum_by pair_notional v.pairs
  unfolding add_rows sum_by
  add_rows-sum [] v = grind int_laws
  add_rows-sum (r ∷ rows) v = rw (add_rows-sum rows _, add_to_pair-sum r v.pairs) (grind int_laws)

-- No two entries are for the same pair.
abbrev pub lists : String → List PairVolume → Bool
lists symbol [] = false
lists symbol (p ∷ ps) = str_eq p.pair symbol || lists symbol ps

abbrev pub AreDistinct : List PairVolume → Type 0
AreDistinct [] = Unit
AreDistinct (p ∷ ps) = (lists p.pair ps ≡ false) × AreDistinct ps
