-- ===== src/WalletService/Listing.antt =====
-- The balance sheet and the ledger's pages (backend/app/services/wallet.py, lines 238 to 286). The
-- order of symbols is the database's collation, a parameter.
use crypto_exchange_pro.Prelude.{
  ℕ, String, Bool, false, Option, none, some, List, [], ◌∷◌, ◌&&◌, ◌==◌, leb, if◌then◌else◌, select,
  page, sort, given, if_given,
}
use text.Mathlib.Text.{◌==◌ as str_eq}
use crypto_exchange_pro.Prelude.Decimal.{Decimal}
use crypto_exchange_pro.Models.{
  Asset, Wallet, WalletType, Transaction, TransactionType, TransactionStatus, transaction_type_eq,
  transaction_status_eq,
}
use crypto_exchange_pro.Session.{Action, gets}

-- An asset by its primary key.
unfoldable pub asset_of : ℕ → List Asset → Option Asset
asset_of id [] = none
asset_of id (a ∷ rest) = if a.id == id then some a else asset_of id rest

pub record BalanceItem : Type 0 where
  pub asset_symbol : String
  pub wallet_type : WalletType
  pub balance : Decimal
  pub available : Decimal
  pub frozen : Decimal

abbrev pub add_item : Wallet → Option Asset → List BalanceItem → List BalanceItem
add_item w none items = items
add_item w (some a) items =
    record {
      asset_symbol = a.symbol;
      wallet_type = w.key.type;
      balance = w.funds.balance;
      available = w.funds.available;
      frozen = w.funds.frozen;
    }
    ∷ items

-- The user's wallets, joined with their assets.
unfoldable pub items_of : ℕ → List Asset → List Wallet → List BalanceItem
items_of user_id assets [] = []
items_of user_id assets (w ∷ ws) =
    let rest = items_of user_id assets ws in
    if w.key.user_id == user_id then add_item w (asset_of w.key.asset_id assets) rest else rest

unfoldable pub get_balances : (String → String → Bool) → ℕ → Action (List BalanceItem)
get_balances precedes user_id = gets (λ db.
    sort (λ (a b : BalanceItem). precedes a.asset_symbol b.asset_symbol)
      (items_of user_id db.assets db.wallets))

pub record TransactionQuery : Type 0 where
  pub tx_type : Option TransactionType
  pub status : Option TransactionStatus
  pub asset_symbol : Option String
  pub date_from : Option ℕ
  pub date_to : Option ℕ

abbrev pub asset_is : Option String → Option Asset → Bool
asset_is symbol none = false
asset_is symbol (some a) = if_given symbol (λ s. str_eq a.symbol s)

-- The `WHERE` clauses; the join drops a row without an asset.
unfoldable pub is_listed_transaction : ℕ → TransactionQuery → List Asset → Transaction → Bool
is_listed_transaction user_id q assets t =
    t.wallet.user_id == user_id
    && (asset_is q.asset_symbol (asset_of t.wallet.asset_id assets)
        && (given q.tx_type (transaction_type_eq t.type)
            && (given q.status (transaction_status_eq t.status)
                && (given q.date_from (λ d. leb d t.created_at)
                    && given q.date_to (λ d. leb t.created_at d)))))

unfoldable pub get_transactions : ℕ → ℕ → ℕ → TransactionQuery → Action (List Transaction)
get_transactions user_id limit offset q =
    gets
      (λ db. page limit offset (select (is_listed_transaction user_id q db.assets) db.transactions))
