-- ===== src/Portfolio/Ledger.antt =====
-- The balances that a portfolio's history reconstructs against the ledger.
use crypto_exchange_pro.Prelude.{
  ℕ, String, true, false, Option, none, some, List, [], ◌∷◌, ◌≡◌, refl, ◌&&◌, ◌==◌, select, All,
  arith, Bool-cases, inl, inr,
}
use crypto_exchange_pro.Prelude.Int.{◌+ℤ◌, ◌-ℤ◌, int_laws}
use crypto_exchange_pro.Prelude.Decimal.{Decimal}
use crypto_exchange_pro.Models.{
  Asset, Wallet, WalletType, spot, funding, same_wallet, wallet_type_eq,
}
use crypto_exchange_pro.Session.{Db}
use crypto_exchange_pro.Tables.Wallets.{funds_of, has_wallet, same_wallet-eq}
use crypto_exchange_pro.WalletService.Listing.{asset_of}
use crypto_exchange_pro.Solvency.Claims.{spot_key, ledger}
use crypto_exchange_pro.Solvency.Invariant.{IsSolvent}
use crypto_exchange_pro.Portfolio.{is_spot_of}
use crypto_exchange_pro.Portfolio.History.{
  Holding, Past, unwind, holdings, add_holding, newest_first, current_holdings,
}
use crypto_exchange_pro.Portfolio.Unwinding.{AreHeld, balances_at, before_moves, unwind-balances_at}
use crypto_exchange_pro.Portfolio.Agreement.{newest_first-IsSorted}
use crypto_exchange_pro.Portfolio.Moves.{funding_key, IsCompleted, up_to, moved_since}

-- `uq_wallet_user_asset_type`.
abbrev pub AreUnique : List Wallet → Type 0
AreUnique [] = Unit
AreUnique (w ∷ ws) = (has_wallet w.key ws ≡ false) × AreUnique ws

abbrev IsCurrent : ℕ → List Wallet → Holding → Type 0
IsCurrent u ws h =
    (has_wallet (spot_key u h.asset_id) ws ≡ true)
    × (h.amount ≡ (funds_of (spot_key u h.asset_id) ws).balance)

IsCurrent-cons :
    (u : ℕ) (w : Wallet) (ws : List Wallet) (hs : List Holding)
    → has_wallet w.key ws ≡ false
    → All (IsCurrent u ws) hs
    → All (IsCurrent u (w ∷ ws)) hs
unfolding has_wallet funds_of
IsCurrent-cons u w ws [] fresh all = tt
IsCurrent-cons u w ws (h ∷ hs) fresh all = (
  ground (arith, all.0, same_wallet-eq (spot_key u h.asset_id) w.key),
  IsCurrent-cons u w ws hs fresh all.1,
)

spot_key-same :
    (u : ℕ) (w : Wallet)
    → is_spot_of u w ≡ true
    → same_wallet (spot_key u w.key.asset_id) w.key ≡ true
unfolding same_wallet
spot_key-same u w t = go w.key.type t
  where
    go :
        (type : WalletType)
        → w.key.user_id == u && wallet_type_eq type spot ≡ true
        → u == w.key.user_id && (w.key.asset_id == w.key.asset_id && wallet_type_eq spot type)
          ≡ true
    go spot t = ground arith
    go funding t = ground arith

IsCurrent-first :
    (u : ℕ) (w : Wallet) (ws : List Wallet) (symbol : String)
    → is_spot_of u w ≡ true
    → IsCurrent u
        (w ∷ ws)
        (record { asset_id = w.key.asset_id; symbol = symbol; amount = w.funds.balance })
unfolding has_wallet funds_of
IsCurrent-first u w ws symbol t = let same = spot_key-same u w t in (rw same refl, rw same refl)

-- The holdings are the balances of the user's spot wallets.
holdings-IsCurrent :
    (u : ℕ) (assets : List Asset) (ws : List Wallet)
    → AreUnique ws
    → All (IsCurrent u ws) (holdings assets (select (is_spot_of u) ws))
unfolding holdings
holdings-IsCurrent u assets [] unique = tt
holdings-IsCurrent u assets (w ∷ ws) unique =
    let rest = IsCurrent-cons u w ws _ unique.0 (holdings-IsCurrent u assets ws unique.1) in
    elim (Bool-cases (is_spot_of u w)) [
      | inr f ↦ rw f rest
      | inl t ↦ rw t (go (asset_of w.key.asset_id assets) t rest)
    ]
  where
    go :
        (a : Option Asset)
        → is_spot_of u w ≡ true
        → All (IsCurrent u (w ∷ ws)) (holdings assets (select (is_spot_of u) ws))
        → All (IsCurrent u (w ∷ ws)) (add_holding w a (holdings assets (select (is_spot_of u) ws)))
    go none t rest = rest
    go (some a) t rest = (IsCurrent-first u w ws a.symbol t, rest)

-- A history's balance of one asset, with what the funding wallet holds now, makes up both ledgers.
abbrev IsBooked : ℕ → ℕ → Db → Holding → Type 0
IsBooked u ts db h =
    h.amount +ℤ (funds_of (funding_key u h.asset_id) db.wallets).balance
    ≡ ledger (spot_key u h.asset_id) (up_to ts db.transactions)
      +ℤ ledger (funding_key u h.asset_id) (up_to ts db.transactions)

before_moves-IsBooked :
    (u ts : ℕ) (db : Db) (h : Holding)
    → IsSolvent db
    → All IsCompleted db.transactions
    → IsCurrent u db.wallets h
    → IsBooked u ts db (before_moves ts (newest_first u db) h)
before_moves-IsBooked u ts db h s done current =
    let spot_books = (s.backed (spot_key u h.asset_id)).books in
    let funding_books = (s.backed (funding_key u h.asset_id)).books in
    let since = moved_since u h.asset_id ts db done in
    rw (current.1, spot_books, funding_books) (balance_lem _ _ _ _ _ since)
  where
    balance_lem : (s f x y moves : Decimal) → s +ℤ f ≡ x +ℤ y +ℤ moves → (s -ℤ moves) +ℤ f ≡ x +ℤ y
    balance_lem s f x y moves h = grind int_laws

All-before_moves :
    (u ts : ℕ) (db : Db) (hs : List Holding)
    → IsSolvent db
    → All IsCompleted db.transactions
    → All (IsCurrent u db.wallets) hs
    → All (IsBooked u ts db) (balances_at ts (newest_first u db) hs)
All-before_moves u ts db [] s done all = tt
All-before_moves u ts db (h ∷ hs) s done all =
    (before_moves-IsBooked u ts db h s done all.0, All-before_moves u ts db hs s done all.1)

balances_at-ledger :
    (u ts : ℕ) (db : Db)
    → IsSolvent db
    → All IsCompleted db.transactions
    → AreUnique db.wallets
    → All (IsBooked u ts db) (balances_at ts (newest_first u db) (current_holdings u db))
balances_at-ledger u ts db s done unique =
    All-before_moves u ts db (current_holdings u db) s done
      (holdings-IsCurrent u db.assets db.wallets unique)

-- On solvent tables with completed ledger rows, no two wallets of the same user, asset and type, and
-- a spot wallet for the asset of each of the user's ledger rows: the history's loop, that takes the
-- user's rows after a time off the current balances, succeeds. Each balance that it leaves, with the
-- balance that the user's funding wallet has now, is the sum of the ledger rows up to that time of
-- the user's spot and funding wallets together.
pub unwind-ledger :
    (u ts : ℕ) (db : Db)
    → IsSolvent db
    → All IsCompleted db.transactions
    → AreUnique db.wallets
    → AreHeld (current_holdings u db) (newest_first u db)
    → (left : Past) × (unwind ts (newest_first u db) (current_holdings u db) ≡ some left)
      × All
          (λ (h : Holding).
            h.amount +ℤ (funds_of (funding_key u h.asset_id) db.wallets).balance
            ≡ ledger (spot_key u h.asset_id) (up_to ts db.transactions)
              +ℤ ledger (funding_key u h.asset_id) (up_to ts db.transactions))
          left.1
unwind-ledger u ts db s done unique held =
    let (left, runs, same) =
      unwind-balances_at ts (newest_first u db) (current_holdings u db) held
        (newest_first-IsSorted u db) in
    (left, runs, rw same (balances_at-ledger u ts db s done unique))
