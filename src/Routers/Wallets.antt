-- ===== src/Routers/Wallets.antt =====
-- backend/app/routers/wallets.py: the endpoints that move money, and the constraints of
-- backend/app/schemas/wallet.py. The balance sheet that they answer with is read after the commit.
use crypto_exchange_pro.Prelude.{ℕ, ⊤, String, none}
use crypto_exchange_pro.Prelude.Int.{pos, leb_ℤ}
use crypto_exchange_pro.Prelude.Decimal.{Decimal}
use crypto_exchange_pro.Models.{Wallet, WalletType, TransactionType}
use crypto_exchange_pro.Session.{Action, Error, ◌>>◌, raise_if}
use crypto_exchange_pro.WalletService.{credit, debit, transfer}
use crypto_exchange_pro.Routers.Transaction.{commits}

-- `Field(gt=0)`.
abbrev pub positive_amount : Decimal → Action ⊤
positive_amount amount = raise_if (leb_ℤ amount (pos 0)) Error.amount_invalid

unfoldable pub deposit_endpoint : ℕ → String → Decimal → Action Wallet
unfolding commits
deposit_endpoint user_id symbol amount = do
  positive_amount amount
  commits (credit user_id symbol amount TransactionType.deposit none)

unfoldable pub withdraw_endpoint : ℕ → String → Decimal → Action Wallet
unfolding commits
withdraw_endpoint user_id symbol amount = do
  positive_amount amount
  commits (debit user_id symbol amount TransactionType.withdrawal none)

unfoldable pub transfer_endpoint : ℕ → String → WalletType → WalletType → Decimal → Action Wallet
unfolding commits
transfer_endpoint user_id symbol from_type to_type amount = do
  positive_amount amount
  commits (transfer user_id symbol from_type to_type amount)
