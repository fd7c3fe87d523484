-- ===== src/Background.antt =====
-- Background work over the services: the task run_conditional_orders (backend/app/tasks/__init__.py), and a
-- round of _market_maker_loop (backend/app/main.py). Exchange has the monitor and the cleanup task.
use crypto_exchange_pro.Prelude.{ℕ, String, Bool, Option, none, map, length}
use crypto_exchange_pro.Models.{TradingPair}
use crypto_exchange_pro.Session.{Db, Action, ◌>>=◌, pure}
use crypto_exchange_pro.Market.{Feed}
use crypto_exchange_pro.Market.Tickers.{list_pairs}
use crypto_exchange_pro.MarketMaker.Engine.{Engine, Making, engine_tick}
use crypto_exchange_pro.Routers.Transaction.{commits}
use crypto_exchange_pro.Trading.Sweep.{check_conditional_orders}

-- The number of orders that were executed.
unfoldable pub run_conditional_orders : Feed → Action ℕ
unfolding commits
run_conditional_orders feed =
    commits (check_conditional_orders feed none >>= λ filled. pure (length filled))

-- A tick of the active pairs; none where it raises, which the loop logs.
unfoldable pub market_maker_round :
    (String → String → Bool) → Making → ℕ → Db → Engine → Option Engine
market_maker_round precedes making now db e =
    engine_tick making now (map (λ (p : TradingPair). p.symbol) (list_pairs precedes db)) e
