-- ===== src/Portfolio/Volume.antt =====
-- The report on a user's traded volume (backend/app/services/portfolio.py, lines 154 to 221): the rows
-- of a grouped query, and their sums by pair. The order of symbols is the database's collation, a
-- parameter. The number of days is left out of the response.
use crypto_exchange_pro.Prelude.{
  ℕ, String, Bool, Option, none, some, List, [], ◌∷◌, ◌+◌, ◌-◌, ◌*◌, ◌&&◌, ◌==◌, leb, if◌then◌else◌,
  select, sort,
}
use text.Mathlib.Text.{◌==◌ as str_eq}
use crypto_exchange_pro.Prelude.Int.{pos, ◌+ℤ◌, ltb_ℤ}
use crypto_exchange_pro.Prelude.Decimal.{Decimal}
use crypto_exchange_pro.Models.{OrderSide, buy, sell, side_eq, Trade, TradingPair}
use crypto_exchange_pro.Session.{Action, gets}
use crypto_exchange_pro.Tables.Orders.{find_pair}

-- A row of the query: the sums over the trades of one pair and side.
pub record VolumeRow : Type 0 where
  pub symbol : String
  pub side : OrderSide
  pub qty : Decimal
  pub notional : Decimal
  pub trades : ℕ

unfoldable pub group_trade : String → Trade → List VolumeRow → List VolumeRow
group_trade symbol t [] =
    record { symbol = symbol; side = t.side; qty = t.qty; notional = t.notional; trades = 1 } ∷ []
group_trade symbol t (r ∷ rows) =
    let rest = group_trade symbol t rows in
    if str_eq r.symbol symbol && side_eq r.side t.side
    then record r {
      qty = r.qty +ℤ t.qty;
      notional = r.notional +ℤ t.notional;
      trades = r.trades + 1;
    }
      ∷ rows
    else r ∷ rest

-- The join drops a trade without a pair.
abbrev pub group_joined : Option TradingPair → Trade → List VolumeRow → List VolumeRow
group_joined none t rows = rows
group_joined (some pair) t rows = group_trade pair.symbol t rows

-- `GROUP BY` symbol and side.
unfoldable pub grouped : List TradingPair → List Trade → List VolumeRow
grouped pairs [] = []
grouped pairs (t ∷ ts) = group_joined (find_pair t.pair_id pairs) t (grouped pairs ts)

pub record PairVolume : Type 0 where
  pub pair : String
  pub buy_notional : Decimal
  pub sell_notional : Decimal
  pub buy_qty : Decimal
  pub sell_qty : Decimal
  pub trades : ℕ

abbrev pub no_volume : String → PairVolume
no_volume symbol = record {
  pair = symbol;
  buy_notional = pos 0;
  sell_notional = pos 0;
  buy_qty = pos 0;
  sell_qty = pos 0;
  trades = 0;
}

-- `pair[f"{side}_notional"] += notional` and so on.
abbrev pub add_row : OrderSide → VolumeRow → PairVolume → PairVolume
add_row buy r p = record p {
  buy_notional = p.buy_notional +ℤ r.notional;
  buy_qty = p.buy_qty +ℤ r.qty;
  trades = p.trades + r.trades;
}
add_row sell r p = record p {
  sell_notional = p.sell_notional +ℤ r.notional;
  sell_qty = p.sell_qty +ℤ r.qty;
  trades = p.trades + r.trades;
}

-- `pairs.setdefault(symbol, ...)`, then the sums.
unfoldable pub add_to_pair : VolumeRow → List PairVolume → List PairVolume
add_to_pair r [] = add_row r.side r (no_volume r.symbol) ∷ []
add_to_pair r (p ∷ ps) =
    let rest = add_to_pair r ps in
    if str_eq p.pair r.symbol then add_row r.side r p ∷ ps else p ∷ rest

pub record VolumeReport : Type 0 where
  pub total_notional : Decimal
  pub total_qty : Decimal
  pub total_trades : ℕ
  pub pairs : List PairVolume

unfoldable pub add_rows : List VolumeRow → VolumeReport → VolumeReport
add_rows [] v = v
add_rows (r ∷ rows) v = add_rows rows (record {
  total_notional = v.total_notional +ℤ r.notional;
  total_qty = v.total_qty +ℤ r.qty;
  total_trades = v.total_trades + r.trades;
  pairs = add_to_pair r v.pairs;
})

abbrev pub no_report : VolumeReport
no_report = record { total_notional = pos 0; total_qty = pos 0; total_trades = 0; pairs = [] }

abbrev pub volume_notional : PairVolume → Decimal
volume_notional p = p.buy_notional +ℤ p.sell_notional

abbrev pub is_recent_of : ℕ → ℕ → Trade → Bool
is_recent_of user_id cutoff t = t.user_id == user_id && leb cutoff t.created_at

abbrev pub by_volume : VolumeReport → VolumeReport
by_volume v = record v {
  pairs = sort (λ (p q : PairVolume). ltb_ℤ (volume_notional q) (volume_notional p)) v.pairs;
}

unfoldable pub get_volume_report : (String → String → Bool) → ℕ → ℕ → Action VolumeReport
get_volume_report precedes user_id days = gets (λ db. by_volume (
    add_rows
      (sort (λ (r s : VolumeRow). precedes r.symbol s.symbol)
        (grouped db.pairs (select (is_recent_of user_id (db.now - days * 86400000000)) db.trades)))
      no_report))
