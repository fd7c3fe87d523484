-- ===== src/Models.antt =====
-- The tables' rows and enumerations: backend/app/models/{order,wallet,transaction,trade,
-- asset,trading_pair,notification}.py. Users, assets, pairs, orders and notifications are known by
-- numbers in place of UUIDs; a wallet is known by the columns of its unique constraint.
-- `updated_at` and the texts of ledger notes are left out.
use crypto_exchange_pro.Prelude.{ℕ, String, Bool, Option, ◌&&◌, true, false, ◌==◌}
use crypto_exchange_pro.Prelude.Decimal.{Decimal}

pub data OrderSide : Type 0 where
  buy sell : OrderSide

pub data OrderType : Type 0 where
  market limit take_profit stop_loss : OrderType

pub data OrderStatus : Type 0 where
  open_ filled partially_filled cancelled rejected : OrderStatus

pub data WalletType : Type 0 where
  spot funding : WalletType

pub data TransactionType : Type 0 where
  deposit withdrawal trade_buy trade_sell fee adjustment transfer : TransactionType

pub data TransactionStatus : Type 0 where
  pending completed failed : TransactionStatus

pub data PairStatus : Type 0 where
  active paused delisted : PairStatus

-- `uq_wallet_user_asset_type`.
pub record WalletKey : Type 0 where
  pub user_id : ℕ
  pub asset_id : ℕ
  pub type : WalletType

-- The amounts of a wallet's row.
pub record Funds : Type 0 where
  pub balance : Decimal
  pub available : Decimal
  pub frozen : Decimal

pub record Wallet : Type 0 where
  pub key : WalletKey
  pub funds : Funds

pub record Asset : Type 0 where
  pub id : ℕ
  pub symbol : String
  pub name : String
  pub decimals : ℕ
  pub is_fiat : Bool
  pub is_active : Bool

pub record TradingPair : Type 0 where
  pub id : ℕ
  pub base_asset_id : ℕ
  pub quote_asset_id : ℕ
  pub symbol : String
  pub price_precision : ℕ
  pub qty_precision : ℕ
  pub min_qty : Decimal
  pub status : PairStatus
  pub is_active : Bool

pub record Order : Type 0 where
  pub id : ℕ
  pub user_id : ℕ
  pub pair_id : ℕ
  pub side : OrderSide
  pub type : OrderType
  pub price : Option Decimal
  pub qty : Decimal
  pub filled_qty : Decimal
  pub avg_fill_price : Option Decimal
  pub status : OrderStatus
  pub created_at : ℕ

pub record Trade : Type 0 where
  pub order_id : ℕ
  pub user_id : ℕ
  pub pair_id : ℕ
  pub side : OrderSide
  pub price : Decimal
  pub qty : Decimal
  pub notional : Decimal
  pub created_at : ℕ

pub record Transaction : Type 0 where
  pub wallet : WalletKey
  pub type : TransactionType
  pub status : TransactionStatus
  pub amount : Decimal
  pub delta : Decimal
  pub ref_id : Option (WalletKey × WalletKey)
  pub created_at : ℕ

-- The text of a notification's body, by its parts: the pair's symbol and a price.
pub data Kind : Type 0 where
  order_filled order_cancelled : Kind

pub record Notification : Type 0 where
  pub id : ℕ
  pub user_id : ℕ
  pub kind : Kind
  pub order_type : OrderType
  pub side : OrderSide
  pub symbol : String
  pub price : Option Decimal
  pub is_read : Bool
  pub created_at : ℕ

abbrev pub side_eq : OrderSide → OrderSide → Bool
side_eq buy buy = true
side_eq sell sell = true
side_eq _ _ = false

abbrev pub type_eq : OrderType → OrderType → Bool
type_eq market market = true
type_eq limit limit = true
type_eq take_profit take_profit = true
type_eq stop_loss stop_loss = true
type_eq _ _ = false

abbrev pub status_eq : OrderStatus → OrderStatus → Bool
status_eq open_ open_ = true
status_eq filled filled = true
status_eq partially_filled partially_filled = true
status_eq cancelled cancelled = true
status_eq rejected rejected = true
status_eq _ _ = false

abbrev pub transaction_type_eq : TransactionType → TransactionType → Bool
transaction_type_eq deposit deposit = true
transaction_type_eq withdrawal withdrawal = true
transaction_type_eq trade_buy trade_buy = true
transaction_type_eq trade_sell trade_sell = true
transaction_type_eq fee fee = true
transaction_type_eq adjustment adjustment = true
transaction_type_eq transfer transfer = true
transaction_type_eq _ _ = false

abbrev pub transaction_status_eq : TransactionStatus → TransactionStatus → Bool
transaction_status_eq pending pending = true
transaction_status_eq completed completed = true
transaction_status_eq failed failed = true
transaction_status_eq _ _ = false

abbrev pub is_open : OrderStatus → Bool
is_open open_ = true
is_open _ = false

abbrev pub is_limit : OrderType → Bool
is_limit limit = true
is_limit _ = false

abbrev pub is_market : OrderType → Bool
is_market market = true
is_market _ = false

abbrev pub is_conditional : OrderType → Bool
is_conditional take_profit = true
is_conditional stop_loss = true
is_conditional _ = false

abbrev pub wallet_type_eq : WalletType → WalletType → Bool
wallet_type_eq spot spot = true
wallet_type_eq funding funding = true
wallet_type_eq _ _ = false

unfoldable pub same_wallet : WalletKey → WalletKey → Bool
same_wallet j k =
    j.user_id == k.user_id && (j.asset_id == k.asset_id && wallet_type_eq j.type k.type)
