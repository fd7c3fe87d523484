-- ===== src/Routers/Portfolio.antt =====
-- backend/app/routers/portfolio.py: the endpoints of a user's portfolio.
use crypto_exchange_pro.Prelude.{ℕ, String, Bool, Option, none, some, List, ◌&&◌, leb, not}
use crypto_exchange_pro.Session.{Db, Result, ok, err, Action, Error, ◌>>◌, raise_if}
use crypto_exchange_pro.Market.{Feed}
use crypto_exchange_pro.Portfolio.{Portfolio, RecentTrade, get_portfolio, get_recent_trades}
use crypto_exchange_pro.Portfolio.History.{Point, get_portfolio_history}
use crypto_exchange_pro.Portfolio.Volume.{VolumeReport, get_volume_report}

-- `Query(ge=1, le=most)`.
abbrev pub days_within : ℕ → ℕ → Bool
days_within most days = leb 1 days && leb days most

unfoldable pub my_portfolio : Feed → ℕ → Action Portfolio
my_portfolio feed user_id db = let (p, db') = get_portfolio feed user_id db in (ok p, db')

unfoldable pub my_recent_trades : ℕ → ℕ → Action (List RecentTrade)
my_recent_trades user_id limit =
    raise_if (not (days_within 100 limit)) Error.query_invalid >> get_recent_trades user_id limit

-- A history that raises is a 500.
abbrev pub or_500 : {A : Type 0} → Option A × Db → Result A × Db
or_500 (none, db) = (err Error.missing_row, db)
or_500 (some a, db) = (ok a, db)

-- With 12 points a day.
unfoldable pub portfolio_history : Feed → (String → ℕ → ℕ) → ℕ → ℕ → Action (List Point)
portfolio_history feed hash user_id days =
    raise_if (not (days_within 30 days)) Error.query_invalid >> λ db.
    or_500 (get_portfolio_history feed hash user_id days 12 db)

unfoldable pub volume_report : (String → String → Bool) → ℕ → ℕ → Action VolumeReport
volume_report precedes user_id days =
    raise_if (not (days_within 90 days)) Error.query_invalid
    >> get_volume_report precedes user_id days
