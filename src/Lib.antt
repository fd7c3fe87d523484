-- ===== src/Lib.antt =====
-- CryptoExchange PRO: a demo exchange for crypto assets. Its backend (backend/app, Python) keeps
-- users' wallets, orders, trades and a ledger in a database, fills orders at a live price, and
-- simulates a market when Binance is out of reach.
--
-- The parts, and the files that model them:
-- - Models.antt: the rows and enumerations of backend/app/models. Session.antt: the database
--   session that the services share, as a record of tables, with the errors that leave a service
--   and the monad of its calls. Tables/Wallets.antt and Tables/Orders.antt: the queries by key.
-- - WalletService.antt: backend/app/services/wallet.py (credit, debit, transfer,
--   purge_stale_transactions). WalletService/Listing.antt: get_balances, get_transactions.
-- - Trading/Limit.antt, Sweep.antt, Place.antt, Cancel.antt, Listing.antt:
--   backend/app/services/trading.py. A limit, take-profit or stop-loss order freezes funds when it is
--   placed; a sweep fills the orders that the live price has reached; cancelling unfreezes. A market
--   order trades at once. `freeze_limit`, `unfreeze_limit`, `execute_limit_fill`,
--   `sweep_open_orders`, `check_conditional_orders`, `place_order` and `cancel_order` have the
--   source's names, without the leading underscore.
-- - NotificationService.antt: backend/app/services/notifications.py, which trading calls.
-- - Market.antt: get_live_price_async of backend/app/services/market.py, which trading reads.
--   Market/Simulated.antt: _current_price and _price_at. Market/Tickers.antt and Candles.antt: tickers,
--   statistics, candles and the tape. Market/Depth.antt: backend/app/services/depth.py.
--   Market/Upstream.antt: what the cache and Binance can answer. Market/Hosts.antt: the requests of
--   backend/app/services/binance_client.py. Market/Ranges.antt: lows and highs.
-- - Portfolio.antt: backend/app/services/portfolio.py (get_portfolio, get_recent_trades), with
--   Portfolio/Volume.antt (get_volume_report) and Portfolio/History.antt (get_portfolio_history, whose
--   inner loop is `unwind`, whose outer loop is `samples`, and whose local usd_value is `usd_value` at
--   simulated prices and `live_usd_value` at live ones). Unwinding, Agreement, Moves and Ledger are
--   about the history; Grouping, Entries and Totals about the report.
-- - Admin.antt: backend/app/services/admin.py (list_users, get_user_detail, update_user), with
--   Admin/Lists.antt (list_all_orders, list_all_trades) and Admin/Stats.antt (get_admin_stats).
--   Admin/Accounts.antt, Access.antt and Consistency.antt are about them.
-- - Catalogue.antt: backend/app/core/seed.py, which runs when the application starts.
--   Catalogue/Seeding.antt, Growth.antt and Restart.antt: what it leaves.
-- - Websocket.antt: authenticate_ws of backend/app/routers/ws.py. Websocket/Prices.antt and
--   Websocket/Notifications.antt: the rounds of its two sockets; Websocket/Announced.antt.
-- - MarketMaker.antt, with Book, Layout, Levels, Ladder, Ticks, Snapshot, and over
--   all pairs Engine and Pairs: the simulated order book of
--   backend/app/services/market_maker.py.
-- - Redis.antt and RateLimit.antt: backend/app/core/ratelimit.py over the commands of Redis.
-- - Auth.antt, Auth/Tokens.antt, Auth/Tickets.antt: accounts, passwords and tokens
--   (backend/app/routers/auth.py, backend/app/dependencies/auth.py, backend/app/core/security.py), and
--   the tickets of websockets (backend/app/core/cache.py). Auth/Schemas.antt: backend/app/schemas/auth.py.
--   Auth/Endpoints.antt: `register` and `login` with their rate limit and validation, around the
--   bodies `register_body` and `login_body`.
-- - Routers/Orders.antt, Wallets.antt, Notifications.antt, Listings.antt, History.antt, Symbols.antt,
--   Admin.antt, Portfolio.antt, Market.antt: the endpoints of backend/app/routers, with the validation of
--   backend/app/schemas. Routers/Transaction.antt: what a request's session leaves, with a commit and
--   without one (backend/app/core/database.py).
-- - Exchange.antt: the running system. Requests, what a registration does to the tables, rounds of the
--   monitor (backend/app/main.py), the cleanup task (backend/app/tasks/__init__.py) and the clock come
--   one after another. Background.antt: the task that runs conditional orders, and the rounds of the
--   market maker.
-- - Lifecycle.antt and Solvency: what all of these keep. Solvency/Rows.antt, Requests.antt, Validation.antt
--   and Events.antt: how rows go on, on any tables.
--   Trading/Matching.antt: what a listing of orders matches. Tests: runs and instances.
--
-- Solvency (Solvency/Invariant.antt) is the exchange's contract with its users: in every wallet the
-- balance is the sum of the available and the frozen amount, the available amount is zero or more,
-- the frozen amount is what the user's open orders reserve, and the balance is the sum of the
-- completed ledger rows. Along with it goes that open orders name a known pair and a price, that
-- orders have different keys below the next key, and that pairs have different keys.
--
-- Numbers. A Decimal is an integer that counts units of 10^-16 (Prelude/Decimal.antt): sums are
-- exact, and so is the product of a quantity and a price, which have 8 decimal places each. Python's
-- context of 28 digits is left out. The columns of an order round to 8 decimals when `refresh_order`
-- reads the row again; the theorems on placing ask for a quantity and a price of at most 8 decimals,
-- with an amount to freeze of at most 12 (`FitsColumns` of Solvency/Stored.antt). The 12 decimals of the
-- columns of wallets and of the ledger, and the 8 of those of trades, do not round. Keys are numbers in
-- place of UUIDs. Times are numbers: microseconds in the tables, and seconds in the simulated book.
--
-- Loops. The sweeps recurse on the list of keys that their query returned, and the loops of the
-- simulated book on the number of missing levels. A portfolio's history recurses on the number of its
-- samples and on the ledger rows that are left; a socket's loop on the list of its rounds. No fuel is
-- used.
--
-- Parameters. The feed of live prices, the hash of simulated prices, the answers of Binance and of the
-- cache, the database's ILIKE, which texts are addresses of mail, the random generator, the anchor
-- price, the collation of symbols, the commands of Redis, password hashes and token signatures are
-- arguments, with what is documented of them as hypotheses.
--
-- Not modelled. Calls run one at a time: locks, the race that get_or_create_wallet retries after, and
-- two workers at once are left out. So are the texts of notes and notifications, and the JSON and the
-- expiry of what is cached, settings and logging, the health endpoints, and the frontend. Floats that a
-- response holds are kept as decimals. The clock stands still during a call.
pub mod Prelude
pub mod Models
pub mod Session
pub mod Redis
pub mod RateLimit
pub mod Tables
pub mod WalletService
pub mod Market
pub mod Portfolio
pub mod MarketMaker
pub mod Trading
pub mod NotificationService
pub mod Auth
pub mod Admin
pub mod Routers
pub mod Catalogue
pub mod Websocket
pub mod Background
pub mod Exchange
pub mod Lifecycle
pub mod Solvency
mod Tests
