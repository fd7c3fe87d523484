-- ===== src/Admin/Consistency.antt =====
-- The parts of the statistics against each other (backend/app/services/admin.py, lines 335 to 474).
use crypto_exchange_pro.Prelude.{
  ℕ, String, Bool, true, false, List, [], ◌∷◌, ◌-◌, ◌*◌, ◌/◌, ◌≡◌, refl, sym, ◌∙◌, ◌==◌, leb, ltb,
  if◌then◌else◌, select, All, All-sort, length, arith, Bool-cases, inl, inr,
}
use text.Mathlib.Text.{◌==◌ as str_eq}
use crypto_exchange_pro.Prelude.Int.{pos, ◌+ℤ◌, +ℤ_zero, ltb_ℤ, int_laws}
use crypto_exchange_pro.Prelude.Sums.{sum_by, sum_by-sort}
use crypto_exchange_pro.Prelude.Decimal.{Decimal}
use crypto_exchange_pro.Models.{OrderSide, buy, sell}
use crypto_exchange_pro.Session.{Db}
use crypto_exchange_pro.Auth.{User}
use crypto_exchange_pro.Portfolio.History.{day}
use crypto_exchange_pro.Admin.Stats.{
  PairTrade, pair_trades, PairRow, group_pair_trade, pair_rows, PairStats, no_stats, count_row,
  count_in, count_rows, DayStats, count_trade, count_on, Timeline, count_days, count_today, usd_of,
  start_of_today, since, get_admin_stats,
}

-- A trade adds its gain to one day, and to the sum over the days.
count_on-sum :
    (f : DayStats → Decimal) (date : ℕ) (usd gain : Decimal) (ds : List DayStats)
    → f (count_trade usd (record { date = date; volume_usd = pos 0; trades = 0 })) ≡ gain
    → ((d : DayStats) → d.date ≡ date → f (count_trade usd d) ≡ gain +ℤ f d)
    → sum_by f (count_on date usd ds) ≡ gain +ℤ sum_by f ds
unfolding count_on sum_by
count_on-sum f date usd gain [] new old = rw new refl
count_on-sum f date usd gain (d ∷ ds) new old = elim (Bool-cases (d.date == date)) [
  | inl e ↦ let first = old d (ground (arith, e)) in rw (e, first) (grind int_laws)
  | inr n ↦ rw n (grind (int_laws, count_on-sum f date usd gain ds new old))
]

abbrev pub day_trades : DayStats → Decimal
day_trades d = pos d.trades

abbrev pub day_volume : DayStats → Decimal
day_volume d = d.volume_usd

-- The volume of a day that is not before the first.
abbrev pub volume_from : ℕ → DayStats → Decimal
volume_from first d = if leb first d.date then d.volume_usd else pos 0

module _ (hash : String → ℕ → ℕ) (db : Db) where
  abbrev pub usd_volume : PairTrade → Decimal
  usd_volume t = usd_of hash db t.quote_asset_id t.trade.notional

  count_days-trades :
      (ts : List PairTrade) (l : Timeline)
      → sum_by day_trades (count_days hash db ts l).days
        ≡ pos (length ts) +ℤ sum_by day_trades l.days
  unfolding count_days
  count_days-trades [] l = grind int_laws
  count_days-trades (t ∷ ts) l =
      let one =
        count_on-sum day_trades (t.trade.created_at / day) (usd_volume t) (pos 1) l.days refl
          (λ d e. grind int_laws) in
      rw (count_days-trades ts _, one) (grind int_laws)

  count_days-volume :
      (ts : List PairTrade) (l : Timeline)
      → sum_by day_volume (count_days hash db ts l).days
        ≡ sum_by usd_volume ts +ℤ sum_by day_volume l.days
  unfolding count_days sum_by
  count_days-volume [] l = grind int_laws
  count_days-volume (t ∷ ts) l =
      let one =
        count_on-sum day_volume (t.trade.created_at / day) (usd_volume t) (usd_volume t) l.days
          (grind int_laws) (λ d e. grind int_laws) in
      rw (count_days-volume ts _, one) (grind int_laws)

  is_today : (created : ℕ) → leb (start_of_today db) created ≡ leb (db.now / day) (created / day)
  is_today created = ground arith

  abbrev today : ℕ
  today = db.now / day

  count_today-volume :
      (t : PairTrade) (l : Timeline)
      → l.today_volume ≡ sum_by (volume_from today) l.days
      → (count_today hash db t l).today_volume
        ≡ sum_by (volume_from today) (count_today hash db t l).days
  count_today-volume t l h =
      let date = t.trade.created_at / day in
      let usd = usd_volume t in
      let one =
        count_on-sum (volume_from today) date usd (if leb today date then usd else pos 0) l.days
          (first today date usd) (λ d e. later today date usd d e) in
      rw (one, is_today t.trade.created_at, h)
        (added (leb today date) usd (sum_by (volume_from today) l.days))
    where
      first :
          (from date : ℕ) (usd : Decimal)
          → (if leb from date then pos 0 +ℤ usd else pos 0) ≡ (if leb from date then usd else pos 0)
      first from date usd = grind int_laws

      later :
          (from date : ℕ) (usd : Decimal) (d : DayStats)
          → d.date ≡ date
          → volume_from from (count_trade usd d)
            ≡ (if leb from date then usd else pos 0) +ℤ volume_from from d
      later from date usd d e = grind int_laws

      added :
          (now : Bool) (usd sum : Decimal)
          → (if now then sum +ℤ usd else sum) ≡ (if now then usd else pos 0) +ℤ sum
      added true usd sum = grind int_laws
      added false usd sum = grind int_laws

  count_days-today :
      (ts : List PairTrade) (l : Timeline)
      → l.today_volume ≡ sum_by (volume_from today) l.days
      → (count_days hash db ts l).today_volume
        ≡ sum_by (volume_from today) (count_days hash db ts l).days
  unfolding count_days
  count_days-today [] l h = h
  count_days-today (t ∷ ts) l h = count_days-today ts _ (count_today-volume t l h)

abbrev pub pair_trade_count : PairStats → Decimal
pair_trade_count e = pos e.trades

abbrev row_trades : PairRow → Decimal
row_trades r = pos r.trades

count_row-trades :
    (s : OrderSide) (usd : Decimal) (n : ℕ) (e : PairStats)
    → pair_trade_count (count_row s usd n e) ≡ pos n +ℤ pair_trade_count e
count_row-trades buy usd n e = grind int_laws
count_row-trades sell usd n e = grind int_laws

count_in-trades :
    (symbol : String) (s : OrderSide) (usd : Decimal) (n : ℕ) (es : List PairStats)
    → sum_by pair_trade_count (count_in symbol (count_row s usd n) es)
      ≡ pos n +ℤ sum_by pair_trade_count es
unfolding count_in sum_by
count_in-trades symbol s usd n [] = rw (count_row-trades s usd n (no_stats symbol)) (grind int_laws)
count_in-trades symbol s usd n (e ∷ es) = elim (Bool-cases (str_eq e.pair symbol)) [
  | inl t ↦ rw (t, count_row-trades s usd n e) (grind int_laws)
  | inr f ↦ rw f (grind (int_laws, count_in-trades symbol s usd n es))
]

group_pair_trade-trades :
    (t : PairTrade) (rows : List PairRow)
    → sum_by row_trades (group_pair_trade t rows) ≡ pos 1 +ℤ sum_by row_trades rows
unfolding group_pair_trade sum_by
group_pair_trade-trades t [] = refl
group_pair_trade-trades t (r ∷ rows) = grind (int_laws, group_pair_trade-trades t rows)

pair_rows-trades : (ts : List PairTrade) → sum_by row_trades (pair_rows ts) ≡ pos (length ts)
unfolding pair_rows sum_by
pair_rows-trades [] = refl
pair_rows-trades (t ∷ ts) =
    rw (group_pair_trade-trades t (pair_rows ts), pair_rows-trades ts) (grind int_laws)

-- The volume of an entry is the sum of its two sides.
abbrev pub IsSplit : PairStats → Type 0
IsSplit e = e.volume_notional ≡ e.buy_notional +ℤ e.sell_notional

count_row-IsSplit :
    (s : OrderSide) (usd : Decimal) (n : ℕ) (e : PairStats)
    → IsSplit e
    → IsSplit (count_row s usd n e)
count_row-IsSplit buy usd n e h = grind int_laws
count_row-IsSplit sell usd n e h = grind int_laws

count_in-IsSplit :
    (symbol : String) (s : OrderSide) (usd : Decimal) (n : ℕ) (es : List PairStats)
    → All IsSplit es
    → All IsSplit (count_in symbol (count_row s usd n) es)
unfolding count_in ◌+ℤ◌
count_in-IsSplit symbol s usd n [] all = (count_row-IsSplit s usd n (no_stats symbol) refl, tt)
count_in-IsSplit symbol s usd n (e ∷ es) all = elim (Bool-cases (str_eq e.pair symbol)) [
  | inl t ↦ rw t (count_row-IsSplit s usd n e all.0, all.1)
  | inr f ↦ rw f (all.0, count_in-IsSplit symbol s usd n es all.1)
]

module _ (hash : String → ℕ → ℕ) (db : Db) where
  count_rows-trades :
      (rows : List PairRow) (es : List PairStats)
      → sum_by pair_trade_count (count_rows hash db rows es)
        ≡ sum_by row_trades rows +ℤ sum_by pair_trade_count es
  unfolding count_rows sum_by
  count_rows-trades [] es = grind int_laws
  count_rows-trades (r ∷ rows) es =
      rw
        (
          count_rows-trades rows _,
          count_in-trades r.symbol r.side (usd_of hash db r.quote_asset_id r.notional) r.trades es,
        )
        (grind int_laws)

  count_rows-IsSplit :
      (rows : List PairRow) (es : List PairStats)
      → All IsSplit es
      → All IsSplit (count_rows hash db rows es)
  unfolding count_rows
  count_rows-IsSplit [] es all = all
  count_rows-IsSplit (r ∷ rows) es all =
      count_rows-IsSplit rows _ (count_in-IsSplit r.symbol r.side _ r.trades es all)

-- In the statistics, an entry's volume is the sum of its purchases and sales; the entries of the pairs
-- and those of the days each count all the trades since the cutoff that have a pair; the days' volumes
-- add up to these trades' notionals in USD; and today's volume is that of the entries dated today or
-- later.
pub get_admin_stats_lem :
    (hash : String → ℕ → ℕ) (days : ℕ) (users : List User) (db : Db)
    → let s = get_admin_stats hash days users db in
      let ts = pair_trades db.pairs (select (since (db.now - days * day)) db.trades) in
      All
        (λ (e : PairStats). e.volume_notional ≡ e.buy_notional +ℤ e.sell_notional)
        s.volume_by_pair
      × (sum_by pair_trade_count s.volume_by_pair ≡ pos (length ts))
      × (sum_by day_trades s.volume_timeline ≡ pos (length ts))
      × (sum_by day_volume s.volume_timeline ≡ sum_by (usd_volume hash db) ts)
      × (s.today_volume_usd ≡ sum_by (volume_from (db.now / day)) s.volume_timeline)
unfolding get_admin_stats sum_by
get_admin_stats_lem hash days users db =
    let ts = pair_trades db.pairs (select (since (db.now - days * day)) db.trades) in
    let start : Timeline = record { days = []; today_volume = pos 0 } in
    let timeline = count_days hash db ts start in
    let by_volume : PairStats → PairStats → Bool =
      λ p q. ltb_ℤ q.volume_notional p.volume_notional in
    let by_date : DayStats → DayStats → Bool = λ d e. ltb d.date e.date in
    let rows = pair_rows ts in
    let entries = count_rows hash db rows [] in
    (
      All-sort IsSplit by_volume entries (count_rows-IsSplit hash db rows [] tt),
      sum_by-sort pair_trade_count by_volume entries
          ∙ count_rows-trades hash db rows []
          ∙ +ℤ_zero _
          ∙ pair_rows-trades ts,
      sum_by-sort day_trades by_date timeline.days ∙ count_days-trades hash db ts start ∙ +ℤ_zero _,
      sum_by-sort day_volume by_date timeline.days ∙ count_days-volume hash db ts start ∙ +ℤ_zero _,
      count_days-today hash db ts start refl
          ∙ sym (sum_by-sort (volume_from (db.now / day)) by_date timeline.days),
    )
