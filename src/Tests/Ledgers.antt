-- ===== src/Tests/Ledgers.antt =====
-- A page of a user's ledger.
use crypto_exchange_pro.Tests.Readings.{tables}
use crypto_exchange_pro.Prelude.{ℕ, ◌≡◌, refl, none, some, [], ◌∷◌}
use crypto_exchange_pro.Prelude.Decimal.{whole}
use crypto_exchange_pro.Models.{Transaction, TransactionType, completed, spot}
use crypto_exchange_pro.Session.{Db, ok}
use crypto_exchange_pro.WalletService.Listing.{
  asset_of, get_transactions, TransactionQuery, is_listed_transaction,
}
use crypto_exchange_pro.Routers.History.{
  TransactionParameters, TransactionResponse, to_transaction_response, symbol_of, my_transactions,
  responses, looked_up, parse_transaction_type, parse_transaction_status,
}

abbrev row : TransactionType → ℕ → ℕ → Transaction
row type asset_id at = record {
  wallet = record { user_id = 5; asset_id = asset_id; type = spot };
  type = type;
  status = completed;
  amount = whole at;
  delta = whole at;
  ref_id = none;
  created_at = at;
}

abbrev ledger_of_5 : Db
ledger_of_5 = record tables {
  transactions =
      row TransactionType.deposit 1 3
      ∷ row TransactionType.transfer 1 4
      ∷ row TransactionType.deposit 2 6
      ∷ row TransactionType.deposit 1 8
      ∷ [];
}

abbrev deposits_asked : TransactionParameters
deposits_asked = record {
  limit = 2;
  offset = 0;
  type = some "deposit";
  status = some "completed";
  asset = none;
  from_time = none;
  to = none;
}

abbrev deposits_query : TransactionQuery
deposits_query = record {
  tx_type = some TransactionType.deposit;
  status = some completed;
  asset_symbol = none;
  date_from = none;
  date_to = none;
}

abbrev shown : Transaction → TransactionResponse
shown t = to_transaction_response t (symbol_of t.wallet.asset_id ledger_of_5.assets)

-- The two newest deposits, of two assets.
deposits_page : my_transactions 5 deposits_asked ledger_of_5 ≡ (
  ok (
      to_transaction_response (row TransactionType.deposit 1 8) (some "USDT")
      ∷ to_transaction_response (row TransactionType.deposit 2 6) (some "BTC")
      ∷ []),
  ledger_of_5,
)
unfolding my_transactions parse_transaction_type parse_transaction_status get_transactions responses
    is_listed_transaction asset_of looked_up
deposits_page = refl
