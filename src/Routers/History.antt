-- ===== src/Routers/History.antt =====
-- The listing endpoints of backend/app/routers/wallets.py: the balance sheet, and the ledger's pages with the
-- strings of their types and states. An amount is kept as its decimal.
use crypto_exchange_pro.Prelude.{
  ℕ, String, Bool, Option, none, some, List, [], ◌∷◌, ◌==◌, if◌then◌else◌,
}
use text.Mathlib.Text.{◌==◌ as str_eq}
use crypto_exchange_pro.Prelude.Decimal.{Decimal}
use crypto_exchange_pro.Models.{Asset, Transaction, TransactionType, TransactionStatus}
use crypto_exchange_pro.Session.{Action, ◌>>=◌, ◌>>◌, gets}
use crypto_exchange_pro.WalletService.Listing.{
  asset_of, BalanceItem, get_balances, get_transactions,
}
use crypto_exchange_pro.Routers.Listings.{parameter, limit_within}

unfoldable pub transaction_type_value : TransactionType → String
transaction_type_value TransactionType.deposit = "deposit"
transaction_type_value TransactionType.withdrawal = "withdrawal"
transaction_type_value TransactionType.trade_buy = "trade_buy"
transaction_type_value TransactionType.trade_sell = "trade_sell"
transaction_type_value TransactionType.fee = "fee"
transaction_type_value TransactionType.adjustment = "adjustment"
transaction_type_value TransactionType.transfer = "transfer"

unfoldable pub transaction_status_value : TransactionStatus → String
transaction_status_value TransactionStatus.pending = "pending"
transaction_status_value TransactionStatus.completed = "completed"
transaction_status_value TransactionStatus.failed = "failed"

-- The literals of the parameter `type`: "transfer" is not one of them.
unfoldable pub parse_transaction_type : String → Option TransactionType
parse_transaction_type s =
    if str_eq s "deposit"
    then some TransactionType.deposit
    else if str_eq s "withdrawal"
    then some TransactionType.withdrawal
    else if str_eq s "trade_buy"
    then some TransactionType.trade_buy
    else if str_eq s "trade_sell"
    then some TransactionType.trade_sell
    else if str_eq s "fee"
    then some TransactionType.fee
    else if str_eq s "adjustment"
    then some TransactionType.adjustment
    else none

unfoldable pub parse_transaction_status : String → Option TransactionStatus
parse_transaction_status s =
    if str_eq s "pending"
    then some TransactionStatus.pending
    else if str_eq s "completed"
    then some TransactionStatus.completed
    else if str_eq s "failed"
    then some TransactionStatus.failed
    else none

pub record TransactionResponse : Type 0 where
  pub type : String
  pub status : String
  pub amount : Decimal
  pub delta : Decimal
  pub asset_symbol : Option String
  pub created_at : ℕ

abbrev pub to_transaction_response : Transaction → Option String → TransactionResponse
to_transaction_response t symbol = record {
  type = transaction_type_value t.type;
  status = transaction_status_value t.status;
  amount = t.amount;
  delta = t.delta;
  asset_symbol = symbol;
  created_at = t.created_at;
}

-- The local `symbols`: the symbols of the assets that were looked up so far.
abbrev pub Symbols : Type 0
Symbols = List (ℕ × Option String)

unfoldable pub looked_up : ℕ → Symbols → Option (Option String)
looked_up id [] = none
looked_up id (s ∷ symbols) = if s.0 == id then some s.1 else looked_up id symbols

-- `scalar_one_or_none` of the symbol of an asset.
abbrev pub symbol_in : Option Asset → Option String
symbol_in none = none
symbol_in (some a) = some a.symbol

abbrev pub symbol_of : ℕ → List Asset → Option String
symbol_of id assets = symbol_in (asset_of id assets)

abbrev pub with_symbol : ℕ → List Asset → Symbols → Option (Option String) → Option String × Symbols
with_symbol id assets symbols (some s) = (s, symbols)
with_symbol id assets symbols none = let s = symbol_of id assets in (s, (id, s) ∷ symbols)

unfoldable pub responses : List Asset → Symbols → List Transaction → List TransactionResponse
responses assets symbols [] = []
responses assets symbols (t ∷ ts) =
    let id = t.wallet.asset_id in
    let (s, symbols') = with_symbol id assets symbols (looked_up id symbols) in
    to_transaction_response t s ∷ responses assets symbols' ts

pub record TransactionParameters : Type 0 where
  pub limit : ℕ
  pub offset : ℕ
  pub type : Option String
  pub status : Option String
  pub asset : Option String
  pub from_time : Option ℕ
  pub to : Option ℕ

unfoldable pub my_transactions : ℕ → TransactionParameters → Action (List TransactionResponse)
my_transactions user_id q = do
  limit_within 200 q.limit
  type ← parameter parse_transaction_type q.type
  status ← parameter parse_transaction_status q.status
  txs ← get_transactions user_id q.limit q.offset (record {
    tx_type = type;
    status = status;
    asset_symbol = q.asset;
    date_from = q.from_time;
    date_to = q.to;
  })
  gets (λ db. responses db.assets [] txs)

unfoldable pub my_balances : (String → String → Bool) → ℕ → Action (List BalanceItem)
my_balances precedes user_id = get_balances precedes user_id
