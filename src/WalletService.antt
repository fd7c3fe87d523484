-- ===== src/WalletService.antt =====
-- backend/app/services/wallet.py: deposits, withdrawals and transfers between wallet types, the
-- balance sheet, and the removal of stale ledger rows. `get_or_create_wallet` hands out the
-- wallet's key; the recovery from a rival insertion is left out, since calls run alone.
pub mod Listing
pub mod Sheet
use crypto_exchange_pro.Prelude.{
  ℕ, String, ⊤, Bool, false, Option, some, [], ◌∷◌, ◌++◌, not, ltb, ◌-◌, ◌*◌, select, length,
}
use crypto_exchange_pro.Prelude.Int.{pos, ◌+ℤ◌, ◌-ℤ◌, neg_ℤ, leb_ℤ, ltb_ℤ}
use crypto_exchange_pro.Prelude.Decimal.{Decimal}
use crypto_exchange_pro.Models.{
  WalletKey, WalletType, Wallet, Funds, Asset, Transaction, TransactionType, pending, completed,
  failed, wallet_type_eq,
}
use crypto_exchange_pro.Session.{
  Action, Error, ok, ◌>>=◌, ◌>>◌, pure, gets, or_raise, raise_if, modify,
}
use crypto_exchange_pro.Tables.Wallets.{insert_missing, write_wallet, funds_of}
use crypto_exchange_pro.Tables.Orders.{find_asset}

unfoldable pub get_or_create_asset : String → Action Asset
get_or_create_asset symbol = do
  or_raise (← gets (λ db. find_asset symbol db.assets)) Error.asset_not_found

unfoldable pub get_or_create_wallet : ℕ → ℕ → WalletType → Action WalletKey
get_or_create_wallet user_id asset_id type =
    let key : WalletKey = record { user_id = user_id; asset_id = asset_id; type = type } in
    do modify (λ db. record db { wallets = insert_missing key db.wallets }); pure key

-- Assignments to the columns of the wallet's row.
unfoldable pub assign : WalletKey → (Funds → Funds) → Action ⊤
assign key f = modify (λ db. record db { wallets = write_wallet key f db.wallets })

unfoldable pub read_funds : WalletKey → Action Funds
read_funds key = gets (λ db. funds_of key db.wallets)

-- The refusal of an amount that the wallet's available funds do not cover.
unfoldable pub cover : WalletKey → Decimal → Error → Action ⊤
unfolding read_funds
cover key amount short = do funds ← read_funds key; raise_if (ltb_ℤ funds.available amount) short

-- `db.add(Transaction(...))` with status completed.
unfoldable pub add_transaction :
    WalletKey → TransactionType → Decimal → Decimal → Option (WalletKey × WalletKey) → Action ⊤
add_transaction key type amount delta ref_id = modify (λ db. record db {
  transactions =
      db.transactions
      ++ record {
        wallet = key;
        type = type;
        status = completed;
        amount = amount;
        delta = delta;
        ref_id = ref_id;
        created_at = db.now;
      }
        ∷ [];
})

abbrev pub credit_funds : Decimal → Funds → Funds
credit_funds x w = record w { balance = w.balance +ℤ x; available = w.available +ℤ x }

abbrev pub debit_funds : Decimal → Funds → Funds
debit_funds x w = record w { balance = w.balance -ℤ x; available = w.available -ℤ x }

unfoldable pub credit :
    ℕ → String → Decimal → TransactionType → Option (WalletKey × WalletKey) → Action Wallet
unfolding get_or_create_asset get_or_create_wallet assign read_funds add_transaction
credit user_id symbol amount tx_type ref_id = do
  raise_if (leb_ℤ amount (pos 0)) Error.amount_not_positive
  asset ← get_or_create_asset symbol
  key ← get_or_create_wallet user_id asset.id WalletType.spot
  assign key (credit_funds amount)
  add_transaction key tx_type amount amount ref_id
  funds ← read_funds key
  pure (record { key = key; funds = funds })

unfoldable pub debit :
    ℕ → String → Decimal → TransactionType → Option (WalletKey × WalletKey) → Action Wallet
unfolding get_or_create_asset get_or_create_wallet assign read_funds add_transaction
debit user_id symbol amount tx_type ref_id = do
  raise_if (leb_ℤ amount (pos 0)) Error.amount_not_positive
  asset ← get_or_create_asset symbol
  key ← get_or_create_wallet user_id asset.id WalletType.spot
  cover key amount Error.insufficient_available
  assign key (debit_funds amount)
  add_transaction key tx_type amount (neg_ℤ amount) ref_id
  funds ← read_funds key
  pure (record { key = key; funds = funds })

-- The test that the types are spot or funding cannot fail: there are no others.
unfoldable pub transfer : ℕ → String → WalletType → WalletType → Decimal → Action Wallet
unfolding get_or_create_asset get_or_create_wallet assign read_funds add_transaction
transfer user_id symbol from_type to_type amount = do
  raise_if (leb_ℤ amount (pos 0)) Error.amount_not_positive
  raise_if (wallet_type_eq from_type to_type) Error.same_wallet_types
  asset ← get_or_create_asset symbol
  source ← get_or_create_wallet user_id asset.id from_type
  target ← get_or_create_wallet user_id asset.id to_type
  cover source amount Error.insufficient_available
  assign source (debit_funds amount)
  assign target (credit_funds amount)
  add_transaction source TransactionType.transfer amount (neg_ℤ amount) (some (source, target))
  add_transaction target TransactionType.transfer amount amount (some (source, target))
  funds ← read_funds target
  pure (record { key = target; funds = funds })

abbrev pub is_stale : ℕ → Transaction → Bool
is_stale cutoff t = elim t.status [
  | pending ↦ ltb t.created_at cutoff
  | completed ↦ false
  | failed ↦ ltb t.created_at cutoff
]

-- A number of days, on a clock of microseconds; the count of removed rows.
unfoldable pub purge_stale_transactions : ℕ → Action ℕ
purge_stale_transactions days db =
    let cutoff = db.now - days * 86400000000 in
    (
      ok (length (select (is_stale cutoff) db.transactions)),
      record db { transactions = select (λ t. not (is_stale cutoff t)) db.transactions },
    )
