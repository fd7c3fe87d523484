-- ===== src/Portfolio/Totals.antt =====
-- The entries and the total of the volume report (backend/app/services/portfolio.py, lines 154 to 221).
use crypto_exchange_pro.Prelude.{
  ℕ, String, Bool, Option, none, some, List, [], ◌∷◌, ◌-◌, ◌*◌, ◌≡◌, refl, sym, ap, ◌∙◌, select,
  sort, All, Bool-cases, inl, inr,
}
use text.Mathlib.Text.{◌==◌ as str_eq}
use crypto_exchange_pro.Prelude.Int.{◌+ℤ◌, +ℤ_zero, zero_+ℤ, ltb_ℤ, int_laws}
use crypto_exchange_pro.Prelude.Sums.{sum_by, sum_by-sort}
use crypto_exchange_pro.Prelude.Decimal.{Decimal}
use crypto_exchange_pro.Models.{OrderSide, buy, sell, Trade, TradingPair}
use crypto_exchange_pro.Session.{Db, ok}
use crypto_exchange_pro.Tables.Orders.{find_pair}
use crypto_exchange_pro.Portfolio.Volume.{
  VolumeRow, VolumeReport, PairVolume, group_trade, group_joined, grouped, add_row, no_volume,
  add_to_pair, add_rows, no_report, volume_notional, is_recent_of, by_volume, get_volume_report,
}
use crypto_exchange_pro.Portfolio.Grouping.{
  traded, joined_notional, pair_notional, grouped-sum, add_rows-sum, row_notional, AreDistinct,
}
use crypto_exchange_pro.Portfolio.Entries.{
  add_rows-AreDistinct, sort-AreDistinct, IsEntry, AreDistinct-IsEntry,
}

-- A row's notional goes to one of the two sums of an entry.
add_row-volume :
    (s : OrderSide) (r : VolumeRow) (p : PairVolume)
    → volume_notional (add_row s r p) ≡ volume_notional p +ℤ r.notional
add_row-volume buy r p = grind int_laws
add_row-volume sell r p = grind int_laws

add_to_pair-volume :
    (r : VolumeRow) (ps : List PairVolume)
    → sum_by volume_notional (add_to_pair r ps) ≡ sum_by volume_notional ps +ℤ r.notional
unfolding add_to_pair sum_by
add_to_pair-volume r [] = rw (add_row-volume r.side r (no_volume r.symbol)) (grind int_laws)
add_to_pair-volume r (p ∷ ps) = elim (Bool-cases (str_eq p.pair r.symbol)) [
  | inl e ↦ rw (e, add_row-volume r.side r p) (grind int_laws)
  | inr f ↦ rw f (grind (int_laws, add_to_pair-volume r ps))
]

add_rows-volume :
    (rows : List VolumeRow) (v : VolumeReport)
    → v.total_notional ≡ sum_by volume_notional v.pairs
    → (add_rows rows v).total_notional ≡ sum_by volume_notional (add_rows rows v).pairs
unfolding add_rows
add_rows-volume [] v h = h
add_rows-volume (r ∷ rows) v h =
    add_rows-volume rows _ (ap (λ x. x +ℤ r.notional) h ∙ sym (add_to_pair-volume r v.pairs))

abbrev row_total : VolumeRow → Decimal
row_total r = r.notional

add_rows-total :
    (rows : List VolumeRow) (v : VolumeReport)
    → (add_rows rows v).total_notional ≡ v.total_notional +ℤ sum_by row_total rows
unfolding add_rows sum_by
add_rows-total [] v = grind int_laws
add_rows-total (r ∷ rows) v = rw (add_rows-total rows _) (grind int_laws)

group_trade-total :
    (s : String) (t : Trade) (rows : List VolumeRow)
    → sum_by row_total (group_trade s t rows) ≡ t.notional +ℤ sum_by row_total rows
unfolding group_trade sum_by
group_trade-total s t [] = refl
group_trade-total s t (r ∷ rows) = grind (int_laws, group_trade-total s t rows)

abbrev pub total_traded : List TradingPair → List Trade → Decimal
total_traded pairs = sum_by (λ (t : Trade). joined_notional t (find_pair t.pair_id pairs))

grouped-total :
    (pairs : List TradingPair) (ts : List Trade)
    → sum_by row_total (grouped pairs ts) ≡ total_traded pairs ts
unfolding grouped sum_by
grouped-total pairs [] = refl
grouped-total pairs (t ∷ ts) = go (find_pair t.pair_id pairs) (grouped-total pairs ts)
  where
    go :
        (p : Option TradingPair)
        → sum_by row_total (grouped pairs ts) ≡ total_traded pairs ts
        → sum_by row_total (group_joined p t (grouped pairs ts))
          ≡ joined_notional t p +ℤ total_traded pairs ts
    go none rest = grind (int_laws, rest)
    go (some p) rest = group_trade-total p.symbol t (grouped pairs ts) ∙ ap (◌+ℤ◌ _) rest

module _ (pairs : List TradingPair) (ts : List Trade) where
  -- The entry has the sums of its pair's trades.
  abbrev pub IsTally : PairVolume → Type 0
  IsTally p =
      (p.buy_notional ≡ traded buy p.pair pairs ts)
      × (p.sell_notional ≡ traded sell p.pair pairs ts)

  All-IsTally :
      (ps rest : List PairVolume)
      → ((side : OrderSide) (s : String)
          → sum_by (pair_notional side s) ps ≡ traded side s pairs ts)
      → All (IsEntry buy ps) rest
      → All (IsEntry sell ps) rest
      → All IsTally rest
  All-IsTally ps [] sums b s = tt
  All-IsTally ps (p ∷ rest) sums b s =
      ((b.0.1 ∙ sums buy p.pair, s.0.1 ∙ sums sell p.pair), All-IsTally ps rest sums b.1 s.1)

-- The report lists each pair at most once, with the sums of the notionals of the user's purchases and
-- sales of that pair since the cutoff; its total is the sum over the entries and the sum over those
-- of the trades that have a pair.
pub get_volume_report_lem :
    (precedes : String → String → Bool) (u days : ℕ) (db : Db)
    → let ts = select (is_recent_of u (db.now - days * 86400000000)) db.trades in
      (v : VolumeReport) × (get_volume_report precedes u days db ≡ (ok v, db))
      × AreDistinct v.pairs
      × All
          (λ (p : PairVolume).
            (p.buy_notional ≡ traded buy p.pair db.pairs ts)
            × (p.sell_notional ≡ traded sell p.pair db.pairs ts))
          v.pairs
      × (v.total_notional ≡ sum_by volume_notional v.pairs)
      × (v.total_notional ≡ total_traded db.pairs ts)
unfolding get_volume_report sum_by
get_volume_report_lem precedes u days db =
    let ts = select (is_recent_of u (db.now - days * 86400000000)) db.trades in
    let by_symbol : VolumeRow → VolumeRow → Bool = λ r s. precedes r.symbol s.symbol in
    let rows = sort by_symbol (grouped db.pairs ts) in
    let tallied = add_rows rows no_report in
    let before : PairVolume → PairVolume → Bool =
      λ p q. ltb_ℤ (volume_notional q) (volume_notional p) in
    let ps = sort before tallied.pairs in
    let distinct = sort-AreDistinct before tallied.pairs (add_rows-AreDistinct rows no_report tt) in
    let sums : (side : OrderSide) (s : String)
        → sum_by (pair_notional side s) ps ≡ traded side s db.pairs ts =
      λ side s.
        sum_by-sort (pair_notional side s) before tallied.pairs
        ∙ add_rows-sum side s rows no_report
        ∙ +ℤ_zero (sum_by (row_notional side s) rows)
        ∙ sum_by-sort (row_notional side s) by_symbol (grouped db.pairs ts)
        ∙ grouped-sum side s db.pairs ts in
    (
      by_volume tallied,
      refl,
      distinct,
      All-IsTally db.pairs ts ps ps sums (AreDistinct-IsEntry buy ps distinct)
          (AreDistinct-IsEntry sell ps distinct),
      add_rows-volume rows no_report refl ∙ sym (sum_by-sort volume_notional before tallied.pairs),
      add_rows-total rows no_report
          ∙ zero_+ℤ (sum_by row_total rows)
          ∙ sum_by-sort row_total by_symbol (grouped db.pairs ts)
          ∙ grouped-total db.pairs ts,
    )
