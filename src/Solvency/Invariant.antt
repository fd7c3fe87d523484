-- ===== src/Solvency/Invariant.antt =====
-- The invariant of the tables.
use crypto_exchange_pro.Prelude.{◌≡◌, arith, String, true, false, some, none, List, [], ◌∷◌, All}
use text.Mathlib.TextEquality.{eq_iff}
use crypto_exchange_pro.Prelude.Int.{pos, ◌+ℤ◌, ◌≤ℤ◌}
use crypto_exchange_pro.Prelude.Decimal.{Decimal}
use crypto_exchange_pro.Models.{WalletKey, Funds, Order, TradingPair, is_open, is_market}
use crypto_exchange_pro.Session.{Db, Result, ok, err}
use crypto_exchange_pro.Tables.Wallets.{funds_of}
use crypto_exchange_pro.Tables.Orders.{find_pair, find_symbol, order_ids, IsFresh}
use crypto_exchange_pro.Lifecycle.{Advances, Advances-refl}
use crypto_exchange_pro.Solvency.Claims.{reserved, ledger}

-- The funds of a wallet against its reservations and its ledger.
pub record IsBacked (w : Funds) (held booked : Decimal) : Type 0 where
  pub splits : w.balance ≡ w.available +ℤ w.frozen
  pub covered : pos 0 ≤ℤ w.available
  pub reserves : w.frozen ≡ held
  pub books : w.balance ≡ booked

abbrev pub Backs : Db → WalletKey → Type 0
Backs db k =
    IsBacked (funds_of k db.wallets) (reserved db.pairs k db.orders) (ledger k db.transactions)

-- An open order names a known pair and a price, both of its amounts are at least zero, and it is
-- no market order.
abbrev pub IsReady : List TradingPair → Order → Type 0
IsReady pairs o =
    (p : TradingPair) × (price : Decimal) × (find_pair o.pair_id pairs ≡ some p)
    × (o.price ≡ some price)
    × (pos 0 ≤ℤ o.qty)
    × (pos 0 ≤ℤ price)
    × (is_market o.type ≡ false)

abbrev pub IsSound : List TradingPair → Order → Type 0
IsSound pairs o = is_open o.status ≡ true → IsReady pairs o

-- No two pairs share a primary key.
abbrev pub IsKeyed : List TradingPair → Type 0
IsKeyed [] = Unit
IsKeyed (p ∷ ps) = (find_pair p.id ps ≡ none) × IsKeyed ps

pub record IsSolvent (db : Db) : Type 0 where
  pub backed : (k : WalletKey) → Backs db k
  pub sound : All (IsSound db.pairs) db.orders
  pub fresh : IsFresh db.next_id (order_ids db.orders)
  pub keyed : IsKeyed db.pairs

-- A symbol names the pair that its key names.
pub find_pair-find_symbol :
    (symbol : String) (ps : List TradingPair) (p : TradingPair)
    → IsKeyed ps
    → find_symbol symbol ps ≡ some p
    → find_pair p.id ps ≡ some p
unfolding find_pair find_symbol
find_pair-find_symbol symbol [] p keyed e = absurd (cc)
find_pair-find_symbol symbol (x ∷ ps) p keyed e =
    ground (arith, eq_iff x.symbol symbol, find_pair-find_symbol symbol ps p keyed.1)

-- Solvent tables, in which every order of the start has at most been filled or cancelled.
pub record IsNext (start db : Db) : Type 0 where
  pub solvent : IsSolvent db
  pub advances : Advances start.orders db.orders

-- Tables whose orders are those of the start.
pub kept-IsNext : (db db' : Db) → IsSolvent db' → db'.orders ≡ db.orders → IsNext db db'
kept-IsNext db db' s orders = record { solvent = s; advances = rw orders (Advances-refl db.orders) }

-- What a call that began on `start` leaves: its next tables, or those that it began on.
abbrev pub IsAtomic : {A : Type 0} → Db → Result A × Db → Type 0
IsAtomic start (ok a, db') = IsNext start db'
IsAtomic start (err e, db') = db' ≡ start
