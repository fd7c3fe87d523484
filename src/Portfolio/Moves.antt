-- ===== src/Portfolio/Moves.antt =====
-- What a user's ledger rows after a time move, in the spot and the funding wallet.
use crypto_exchange_pro.Prelude.{
  ℕ, Bool, true, false, List, [], ◌∷◌, ◌≡◌, refl, ◌∙◌, ◌&&◌, ◌==◌, ltb, leb, not, if◌then◌else◌,
  select, All, arith,
}
use crypto_exchange_pro.Prelude.Int.{pos, ◌+ℤ◌, int_laws}
use crypto_exchange_pro.Prelude.Sums.{sum_by, sum_by-sort, sum_by-select}
use crypto_exchange_pro.Prelude.Decimal.{Decimal}
use crypto_exchange_pro.Models.{
  WalletKey, WalletType, spot, funding, Transaction, completed, same_wallet, wallet_type_eq,
}
use crypto_exchange_pro.Session.{Db}
use crypto_exchange_pro.Solvency.Claims.{spot_key, ledger, ledger_by}
use crypto_exchange_pro.Portfolio.History.{newest_first, newer, is_of}
use crypto_exchange_pro.Portfolio.Unwinding.{moved}

abbrev pub funding_key : ℕ → ℕ → WalletKey
funding_key user_id asset_id = record { user_id = user_id; asset_id = asset_id; type = funding }

abbrev pub IsCompleted : Transaction → Type 0
IsCompleted t = t.status ≡ completed

-- The rows up to a time.
abbrev pub up_to : ℕ → List Transaction → List Transaction
up_to ts = select (λ (t : Transaction). leb t.created_at ts)

abbrev moved_by : ℕ → ℕ → Transaction → Decimal
moved_by asset_id ts t =
    if ltb ts t.created_at && t.wallet.asset_id == asset_id then t.delta else pos 0

moved_sum :
    (asset_id ts : ℕ) (txs : List Transaction)
    → moved asset_id ts txs ≡ sum_by (moved_by asset_id ts) txs
unfolding moved sum_by
moved_sum asset_id ts [] = refl
moved_sum asset_id ts (t ∷ txs) = grind (int_laws, moved_sum asset_id ts txs)

-- What the rows of a user and an asset move goes to one of two wallets.
both_wallets :
    (u a ts : ℕ) (t : Transaction)
    → IsCompleted t
    → ledger_by (spot_key u a) t +ℤ ledger_by (funding_key u a) t
      ≡ (if t.wallet.user_id == u && t.wallet.asset_id == a then t.delta else pos 0)
unfolding ledger_by same_wallet
both_wallets u a ts t h = rw h (go t.wallet.type)
  where
    go :
        (type : WalletType)
        → (if u == t.wallet.user_id && (a == t.wallet.asset_id && wallet_type_eq spot type)
              then t.delta
              else pos 0)
            +ℤ (if u == t.wallet.user_id && (a == t.wallet.asset_id && wallet_type_eq funding type)
                then t.delta
                else pos 0)
          ≡ (if t.wallet.user_id == u && t.wallet.asset_id == a then t.delta else pos 0)
    go spot = grind int_laws
    go funding = grind int_laws

abbrev kept_by : WalletKey → ℕ → Transaction → Decimal
kept_by k ts t = if leb t.created_at ts then ledger_by k t else pos 0

row_split :
    (spot_part funding_part delta : Decimal) (mine this early : Bool)
    → spot_part +ℤ funding_part ≡ (if mine && this then delta else pos 0)
    → spot_part +ℤ funding_part
      ≡ (if early then spot_part else pos 0)
        +ℤ (if early then funding_part else pos 0)
        +ℤ (if mine then (if not early && this then delta else pos 0) else pos 0)
row_split s f delta true true true h = grind int_laws
row_split s f delta true true false h = grind int_laws
row_split s f delta true false true h = grind int_laws
row_split s f delta true false false h = grind int_laws
row_split s f delta false this true h = grind int_laws
row_split s f delta false this false h = grind int_laws

not-leb : (a b : ℕ) → ltb b a ≡ not (leb a b)
not-leb a b = ground arith

-- A row counts up to a time or after it.
ledgers_split_row :
    (u a ts : ℕ) (t : Transaction)
    → IsCompleted t
    → ledger_by (spot_key u a) t +ℤ ledger_by (funding_key u a) t
      ≡ kept_by (spot_key u a) ts t
        +ℤ kept_by (funding_key u a) ts t
        +ℤ (if is_of u t then moved_by a ts t else pos 0)
ledgers_split_row u a ts t h = rw (not-leb t.created_at ts) (
    row_split (ledger_by (spot_key u a) t) (ledger_by (funding_key u a) t) t.delta (is_of u t)
      (t.wallet.asset_id == a) (leb t.created_at ts) (both_wallets u a ts t h))

ledger_sum : (k : WalletKey) (txs : List Transaction) → ledger k txs ≡ sum_by (ledger_by k) txs
unfolding ledger sum_by
ledger_sum k [] = refl
ledger_sum k (t ∷ txs) = grind (int_laws, ledger_sum k txs)

ledger_up_to :
    (k : WalletKey) (ts : ℕ) (txs : List Transaction)
    → ledger k (up_to ts txs) ≡ sum_by (kept_by k ts) txs
ledger_up_to k ts txs =
    ledger_sum k (up_to ts txs)
    ∙ sum_by-select (ledger_by k) (λ (t : Transaction). leb t.created_at ts) txs

sums_split :
    (u a ts : ℕ) (txs : List Transaction)
    → All IsCompleted txs
    → ledger (spot_key u a) txs +ℤ ledger (funding_key u a) txs
      ≡ sum_by (kept_by (spot_key u a) ts) txs
        +ℤ sum_by (kept_by (funding_key u a) ts) txs
        +ℤ sum_by (λ t. if is_of u t then moved_by a ts t else pos 0) txs
unfolding ledger sum_by
sums_split u a ts [] all = grind int_laws
sums_split u a ts (t ∷ txs) all =
    interchange _ _ _ _ _ _ _ _ _ _ (ledgers_split_row u a ts t all.0) (sums_split u a ts txs all.1)
  where
    interchange :
        (s f x y z s' f' x' y' z' : Decimal)
        → s +ℤ f ≡ x +ℤ y +ℤ z
        → s' +ℤ f' ≡ x' +ℤ y' +ℤ z'
        → (s +ℤ s') +ℤ (f +ℤ f') ≡ (x +ℤ x') +ℤ (y +ℤ y') +ℤ (z +ℤ z')
    interchange s f x y z s' f' x' y' z' h k = grind int_laws

-- The user's rows of an asset after a time are what the two ledgers have gained since.
pub moved_since :
    (u a ts : ℕ) (db : Db)
    → All IsCompleted db.transactions
    → ledger (spot_key u a) db.transactions +ℤ ledger (funding_key u a) db.transactions
      ≡ ledger (spot_key u a) (up_to ts db.transactions)
        +ℤ ledger (funding_key u a) (up_to ts db.transactions)
        +ℤ moved a ts (newest_first u db)
moved_since u a ts db all =
    let txs = db.transactions in
    let total : moved a ts (newest_first u db)
        ≡ sum_by (λ t. if is_of u t then moved_by a ts t else pos 0) txs =
      moved_sum a ts (newest_first u db)
      ∙ sum_by-sort (moved_by a ts) newer (select (is_of u) txs)
      ∙ sum_by-select (moved_by a ts) (is_of u) txs in
    rw (total, ledger_up_to (spot_key u a) ts txs, ledger_up_to (funding_key u a) ts txs)
      (sums_split u a ts txs all)
