-- ===== src/Solvency/Purging.antt =====
-- The removal of stale ledger rows (backend/app/services/wallet.py, lines 289 to 303).
use crypto_exchange_pro.Prelude.{
  ℕ, ◌+◌, ◌-◌, ◌*◌, ◌≡◌, refl, ap, Bool, List, [], ◌∷◌, not, ◌||◌, leb, select, length, arith,
}
use crypto_exchange_pro.Prelude.Int.{int_laws}
use crypto_exchange_pro.Models.{
  WalletKey, Transaction, TransactionStatus, pending, completed, failed, transaction_status_eq,
}
use crypto_exchange_pro.Session.{Db, ok}
use crypto_exchange_pro.WalletService.{purge_stale_transactions, is_stale}
use crypto_exchange_pro.Solvency.Claims.{ledger, ledger_by}

-- Removing rows that were never completed leaves every ledger's sum.
pub ledger-select :
    (k : WalletKey) (cutoff : ℕ) (ts : List Transaction)
    → ledger k (select (λ t. not (is_stale cutoff t)) ts) ≡ ledger k ts
unfolding ledger ledger_by
ledger-select k cutoff [] = refl
ledger-select k cutoff (t ∷ ts) = grind (int_laws, ledger-select k cutoff ts)

counts :
    (p : Transaction → Bool) (ts : List Transaction)
    → length (select p ts) + length (select (λ t. not (p t)) ts) ≡ length ts
counts p [] = refl
counts p (t ∷ ts) = ground (arith, counts p ts)

none_left :
    (p : Transaction → Bool) (ts : List Transaction)
    → length (select p (select (λ t. not (p t)) ts)) ≡ 0
none_left p [] = refl
none_left p (t ∷ ts) = ground (arith, none_left p ts)

-- A row that was completed, or that is not older than the cutoff.
abbrev pub stays : ℕ → Transaction → Bool
stays cutoff t = transaction_status_eq t.status completed || leb cutoff t.created_at

not_stale : (cutoff : ℕ) (t : Transaction) → not (is_stale cutoff t) ≡ stays cutoff t
not_stale cutoff t = go t.status
  where
    go :
        (status : TransactionStatus)
        → not (is_stale cutoff (record t { status = status }))
          ≡ stays cutoff (record t { status = status })
    go pending = ground arith
    go completed = refl
    go failed = ground arith

select-stays :
    (cutoff : ℕ) (ts : List Transaction)
    → select (λ t. not (is_stale cutoff t)) ts ≡ select (stays cutoff) ts
select-stays cutoff [] = refl
select-stays cutoff (t ∷ ts) = rw (not_stale cutoff t, select-stays cutoff ts) refl

-- The cleanup leaves exactly the ledger rows that were completed or that are not older than the given
-- number of days, in their order, and returns the number of the others. That leaves the sum of every
-- wallet's completed ledger rows as it was, and a cleanup that runs again at once finds nothing.
pub purge_stale_transactions_lem :
    (days : ℕ) (k : WalletKey) (db : Db)
    → let (r, db') = purge_stale_transactions days db in
      (db'.transactions ≡ select (stays (db.now - days * 86400000000)) db.transactions)
      × ((n : ℕ) × (r ≡ ok n) × (n + length db'.transactions ≡ length db.transactions))
      × (ledger k db'.transactions ≡ ledger k db.transactions)
      × ((purge_stale_transactions days db').0 ≡ ok 0)
unfolding purge_stale_transactions
purge_stale_transactions_lem days k db =
    let cutoff = db.now - days * 86400000000 in
    (
      select-stays cutoff db.transactions,
      (_, refl, counts (is_stale cutoff) db.transactions),
      ledger-select k cutoff db.transactions,
      ap ok (none_left (is_stale cutoff) db.transactions),
    )
