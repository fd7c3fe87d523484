-- ===== src/Solvency/Deposits.antt =====
-- Deposits, withdrawals and transfers (backend/app/services/wallet.py, lines 68 to 230) on solvent
-- tables.
use crypto_exchange_pro.Prelude.{
  ℕ, ◌≡◌, refl, false, Option, some, String, ◌⊎◌, inl, inr, arith, if◌then◌else◌, Bool-cases,
  Option-cases,
}
use crypto_exchange_pro.Prelude.Int.{pos, ◌+ℤ◌, ◌-ℤ◌, ◌≤ℤ◌, leb_ℤ, int_laws}
use crypto_exchange_pro.Prelude.Decimal.{Decimal}
use crypto_exchange_pro.Models.{
  WalletKey, WalletType, Asset, TransactionType, same_wallet, wallet_type_eq,
}
use crypto_exchange_pro.Session.{Db, Error, ok, or_rollback}
use crypto_exchange_pro.Tables.Wallets.{
  funds_of, insert_missing, wallet_laws, funds_of-insert_missing,
}
use crypto_exchange_pro.Tables.Orders.{find_asset}
use crypto_exchange_pro.WalletService.{credit, debit, transfer, cover}
use crypto_exchange_pro.Solvency.Claims.{spot_key, ledger-append, ledger_by}
use crypto_exchange_pro.Solvency.Invariant.{IsSolvent, IsNext, IsAtomic, kept-IsNext}
use crypto_exchange_pro.Solvency.Effects.{
  Effect, SameBook, Covers-at, covered, short, cover-Covering, IsBacked-Changes,
}

-- Money that moves in and out of available funds, with its ledger rows.
pub moved-IsNext :
    (db db' : Db) (net : WalletKey → Decimal)
    → SameBook db db'
    → ((k : WalletKey) → Effect db db' k (net k) (net k) (pos 0))
    → ((k : WalletKey) → pos 0 ≤ℤ (funds_of k db.wallets).available +ℤ net k)
    → IsSolvent db
    → IsNext db db'
moved-IsNext db db' net same moves nonneg s =
    kept-IsNext db db'
      (record {
        backed = λ k.
            rw (same.orders, same.pairs)
              (IsBacked-Changes _ _ _ _ _ _ _ _ _ (s.backed k) (moves k) (omega int_laws)
                (omega int_laws) (nonneg k));
        sound = rw (same.orders, same.pairs) s.sound;
        fresh = rw (same.orders, same.next_id) s.fresh;
        keyed = rw same.pairs s.keyed;
      })
      same.orders

abbrev pub key_of : ℕ → ℕ → WalletType → WalletKey
key_of u asset_id type = record { user_id = u; asset_id = asset_id; type = type }

abbrev pub at : WalletKey → WalletKey → Decimal → Decimal
at key k amount = if same_wallet k key then amount else pos 0

at-nonneg :
    (key k : WalletKey) (amount available : Decimal)
    → pos 0 ≤ℤ available
    → leb_ℤ amount (pos 0) ≡ false
    → pos 0 ≤ℤ available +ℤ at key k amount
at-nonneg key k amount available h p = grind int_laws

module _ (db : Db) (u : ℕ) (symbol : String) (amount : Decimal) where
  -- A positive amount of a known asset is added to the spot wallet and booked.
  pub credit-Effect :
      (type : TransactionType) (ref : Option (WalletKey × WalletKey)) (a : Asset)
      → leb_ℤ amount (pos 0) ≡ false
      → find_asset symbol db.assets ≡ some a
      → (k : WalletKey)
      → let net = at (spot_key u a.id) k amount in
        Effect db (credit u symbol amount type ref db).1 k net net (pos 0)
  unfolding credit ledger_by
  credit-Effect type ref a positive known k =
      simp (positive, known, wallet_laws, ledger-append) (grind int_laws)

  -- Crediting on solvent tables either returns on solvent tables whose orders are as they were, or
  -- raises and changes nothing.
  pub credit-IsAtomic :
      (type : TransactionType) (ref : Option (WalletKey × WalletKey))
      → IsSolvent db
      → IsAtomic db (credit u symbol amount type ref db)
  unfolding credit
  credit-IsAtomic type ref s = elim (Bool-cases (leb_ℤ amount (pos 0))) [
    | inl t ↦ rw t refl
    | inr f ↦ elim (Option-cases (find_asset symbol db.assets)) [
      | inl e ↦ rw (f, e) refl
      | inr (a, e) ↦
          rw (f, e)
            (moved-IsNext db _ (λ k. at (spot_key u a.id) k amount)
              (record { pairs = refl; orders = refl; trades = refl; next_id = refl })
              (rw (f, e) at (credit-Effect type ref a f e))
              (λ k. at-nonneg (spot_key u a.id) k amount _ (s.backed k).covered f) s)
    ]
  ]

-- What is taken out when it is covered leaves the available funds at zero or more.
taken_nonneg :
    (available out gain : Decimal)
    → (out ≤ℤ available) ⊎ (out ≡ pos 0)
    → pos 0 ≤ℤ available
    → pos 0 ≤ℤ gain
    → pos 0 ≤ℤ available +ℤ (gain -ℤ out)
taken_nonneg available out gain c a g = grind int_laws

gain_nonneg :
    (key k : WalletKey) (amount : Decimal) → leb_ℤ amount (pos 0) ≡ false → pos 0 ≤ℤ at key k amount
gain_nonneg key k amount p = grind int_laws

module _ (db : Db) (u : ℕ) (symbol : String) (amount : Decimal) where
  -- A withdrawal that passes its checks is taken from the spot wallet and booked.
  pub debit-Effect :
      (type : TransactionType) (ref : Option (WalletKey × WalletKey)) (a : Asset)
      → leb_ℤ amount (pos 0) ≡ false
      → find_asset symbol db.assets ≡ some a
      → let key = spot_key u a.id in
        let db1 = record db { wallets = insert_missing key db.wallets } in
        cover key amount Error.insufficient_available db1 ≡ (ok tt, db1)
        → (k : WalletKey)
        → let net = pos 0 -ℤ at key k amount in
          Effect db (debit u symbol amount type ref db).1 k net net (pos 0)
  unfolding debit ledger_by
  debit-Effect type ref a positive known passes k =
      rw (positive, known, passes) (simp (wallet_laws, ledger-append) (grind int_laws))

  -- A debit on solvent tables, rolled back if it raises, either returns on solvent tables, so that
  -- what it took was available, with the orders as they were, or leaves the tables unchanged.
  pub debit-IsAtomic :
      (type : TransactionType) (ref : Option (WalletKey × WalletKey))
      → IsSolvent db
      → IsAtomic db (or_rollback db (debit u symbol amount type ref db))
  unfolding debit
  debit-IsAtomic type ref s = elim (Bool-cases (leb_ℤ amount (pos 0))) [
    | inl t ↦ rw t refl
    | inr f ↦ elim (Option-cases (find_asset symbol db.assets)) [
      | inl e ↦ rw (f, e) refl
      | inr (a, e) ↦
          let key = spot_key u a.id in
          let db1 = record db { wallets = insert_missing key db.wallets } in
          elim (cover-Covering key amount Error.insufficient_available db1) [
            | short c x ↦ rw (f, e, c) refl
            | covered c x ↦
                rw (f, e, c)
                  (moved-IsNext db _ (λ k. pos 0 -ℤ at key k amount)
                    (record { pairs = refl; orders = refl; trades = refl; next_id = refl })
                    (rw (f, e, c) at (debit-Effect type ref a f e c))
                    (λ k.
                      taken_nonneg _ (at key k amount) (pos 0) (Covers-at db k key amount x)
                        (s.backed k).covered (omega arith))
                    s)
          ]
    ]
  ]

  -- A transfer that passes its checks moves the amount between the user's two wallets of the
  -- asset, and books both sides.
  pub transfer-Effect :
      (from_type to_type : WalletType) (a : Asset)
      → leb_ℤ amount (pos 0) ≡ false
      → wallet_type_eq from_type to_type ≡ false
      → find_asset symbol db.assets ≡ some a
      → let source = key_of u a.id from_type in
        let target = key_of u a.id to_type in
        let db1 = record db {
          wallets = insert_missing target (insert_missing source db.wallets);
        } in
        cover source amount Error.insufficient_available db1 ≡ (ok tt, db1)
        → (k : WalletKey)
        → let net = at target k amount -ℤ at source k amount in
          Effect db (transfer u symbol from_type to_type amount db).1 k net net (pos 0)
  unfolding transfer ledger_by
  transfer-Effect from_type to_type a positive differ known passes k =
      rw (positive, differ, known, passes) (simp (wallet_laws, ledger-append) (grind int_laws))

  -- A transfer on solvent tables, rolled back if it raises, either returns on solvent tables, so
  -- that both wallets are backed by their ledger rows and the amount was available, or leaves the
  -- tables unchanged.
  pub transfer-IsAtomic :
      (from_type to_type : WalletType)
      → IsSolvent db
      → IsAtomic db (or_rollback db (transfer u symbol from_type to_type amount db))
  unfolding transfer
  transfer-IsAtomic from_type to_type s = elim (Bool-cases (leb_ℤ amount (pos 0))) [
    | inl t ↦ rw t refl
    | inr f ↦ elim (Bool-cases (wallet_type_eq from_type to_type)) [
      | inl t ↦ rw (f, t) refl
      | inr d ↦ elim (Option-cases (find_asset symbol db.assets)) [
        | inl e ↦ rw (f, d, e) refl
        | inr (a, e) ↦
            let source = key_of u a.id from_type in
            let target = key_of u a.id to_type in
            let db1 = record db {
              wallets = insert_missing target (insert_missing source db.wallets);
            } in
            elim (cover-Covering source amount Error.insufficient_available db1) [
              | short c x ↦ rw (f, d, e, c) refl
              | covered c x ↦
                  rw (f, d, e, c)
                    (moved-IsNext db _ (λ k. at target k amount -ℤ at source k amount)
                      (record { pairs = refl; orders = refl; trades = refl; next_id = refl })
                      (rw (f, d, e, c) at (transfer-Effect from_type to_type a f d e c))
                      (λ k.
                        taken_nonneg _ (at source k amount) (at target k amount)
                          (Covers-at db k source amount (rw funds_of-insert_missing at x))
                          (s.backed k).covered (gain_nonneg target k amount f))
                      s)
            ]
      ]
    ]
  ]
