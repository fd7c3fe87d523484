-- ===== src/Session.antt =====
-- The database session that the services share: the tables, the errors that leave a service, and
-- the monad of service calls. A call runs alone: `FOR UPDATE` locks and `flush` do nothing here,
-- and no rival transaction trips a unique constraint. Rows come back in the order of insertion
-- where a query names no order. The clock stands still during a call.
use crypto_exchange_pro.Prelude.{ℕ, ⊤, Bool, Option, none, some, List, if◌then◌else◌}
use crypto_exchange_pro.Models.{Asset, TradingPair, Wallet, Order, Trade, Transaction, Notification}

pub record Db : Type 0 where
  pub assets : List Asset
  pub pairs : List TradingPair
  pub wallets : List Wallet
  pub orders : List Order
  pub trades : List Trade
  pub transactions : List Transaction
  pub notifications : List Notification
  pub next_id : ℕ
  pub now : ℕ
  -- How many live prices have been read, which picks the next reading of the feed.
  pub prices_read : ℕ

-- The `HTTPException`s that the services raise; `invalid_decimal` is `Decimal(str(None))`, and
-- `missing_row` an attribute of a row that is not there.
pub data Error : Type 0 where
  quantity_not_positive price_not_positive amount_not_positive : Error
  insufficient_quote insufficient_base insufficient_available : Error
  pair_not_found order_not_found asset_not_found order_not_open : Error
  same_wallet_types invalid_side invalid_type price_required quantity_invalid price_invalid : Error
  amount_invalid query_invalid notification_not_found : Error
  invalid_decimal missing_row : Error

abbrev pub status_code : Error → ℕ
status_code Error.pair_not_found = 404
status_code Error.order_not_found = 404
status_code Error.asset_not_found = 404
status_code Error.notification_not_found = 404
status_code Error.quantity_invalid = 422
status_code Error.price_invalid = 422
status_code Error.amount_invalid = 422
status_code Error.query_invalid = 422
status_code Error.invalid_side = 422
status_code Error.invalid_type = 422
status_code Error.price_required = 422
status_code Error.invalid_decimal = 500
status_code Error.missing_row = 500
status_code _ = 400

pub data Result (A : Type 0) : Type 0 where
  ok : A → Result A
  err : Error → Result A

-- The state comes back after an error too: what was written stays until a rollback.
abbrev pub Action : Type 0 → Type 0
Action A = Db → Result A × Db

module _ {A : Type 0} where
  abbrev pub pure : A → Action A
  pure a db = (ok a, db)

  abbrev pub raise : Error → Action A
  raise e db = (err e, db)

  abbrev pub gets : (Db → A) → Action A
  gets f db = (ok (f db), db)

  abbrev pub or_raise : Option A → Error → Action A
  or_raise none e db = (err e, db)
  or_raise (some a) e db = (ok a, db)

  -- `try: m; except Exception: await db.rollback(); raise`, in a session that began at `start`.
  abbrev pub or_rollback : Db → Result A × Db → Result A × Db
  or_rollback start (ok a, db) = (ok a, db)
  or_rollback start (err e, db) = (err e, start)

-- The rest of a call, unless it has raised.
abbrev pub proceed : {A B : Type 0} → Result A × Db → (A → Action B) → Result B × Db
proceed (ok a, db) f = f a db
proceed (err e, db) f = (err e, db)

infixl 5 ◌>>=◌ ◌>>◌
abbrev pub ◌>>=◌ : {A B : Type 0} → Action A → (A → Action B) → Action B
◌>>=◌ m f db = proceed (m db) f

abbrev pub ◌>>◌ : {A B : Type 0} → Action A → Action B → Action B
m >> k = m >>= λ _. k

abbrev pub raise_if : Bool → Error → Action ⊤
raise_if c e db = (if c then err e else ok tt, db)

abbrev pub modify : (Db → Db) → Action ⊤
modify f db = (ok tt, f db)
