-- ===== src/Tables/Wallets.antt =====
-- The wallets table by its unique key. A missing wallet counts as one with no funds, which is
-- what `get_or_create_wallet` makes of it.
use crypto_exchange_pro.Prelude.{◌≡◌, refl, Bool, true, false, List, [], ◌∷◌, arith, if◌then◌else◌}
use crypto_exchange_pro.Prelude.Int.{pos}
use crypto_exchange_pro.Models.{
  WalletKey, Wallet, Funds, WalletType, spot, funding, same_wallet, wallet_type_eq,
}

abbrev pub no_funds : Funds
no_funds = record { balance = pos 0; available = pos 0; frozen = pos 0 }

unfoldable pub has_wallet : WalletKey → List Wallet → Bool
has_wallet k [] = false
has_wallet k (w ∷ ws) = if same_wallet k w.key then true else has_wallet k ws

unfoldable pub funds_of : WalletKey → List Wallet → Funds
funds_of k [] = no_funds
funds_of k (w ∷ ws) = if same_wallet k w.key then w.funds else funds_of k ws

-- An assignment to the columns of a wallet's row, which is inserted if it is pending.
unfoldable pub write_wallet : WalletKey → (Funds → Funds) → List Wallet → List Wallet
write_wallet k f [] = record { key = k; funds = f no_funds } ∷ []
write_wallet k f (w ∷ ws) =
    if same_wallet k w.key then record w { funds = f w.funds } ∷ ws else w ∷ write_wallet k f ws

unfoldable pub insert_missing : WalletKey → List Wallet → List Wallet
unfolding has_wallet
insert_missing k ws = if has_wallet k ws then ws else write_wallet k (λ f. f) ws

same_wallet_type_eq : (a b : WalletType) → wallet_type_eq a b ≡ true → a ≡ b
same_wallet_type_eq spot spot h = refl
same_wallet_type_eq spot funding h = cc
same_wallet_type_eq funding spot h = cc
same_wallet_type_eq funding funding h = refl

pub wallet_type_eq_refl : (a : WalletType) → wallet_type_eq a a ≡ true
wallet_type_eq_refl spot = refl
wallet_type_eq_refl funding = refl

pub same_wallet_refl : (k : WalletKey) → same_wallet k k ≡ true
unfolding same_wallet
same_wallet_refl k = ground (arith, wallet_type_eq_refl k.type)

-- Keys that compare equal are equal.
pub same_wallet-eq : (j k : WalletKey) → same_wallet j k ≡ true → j ≡ k
unfolding same_wallet
same_wallet-eq j k h = ground (arith, same_wallet_type_eq j.type k.type)

-- A write to one wallet changes that wallet alone.
pub funds_of-write_wallet :
    (j k : WalletKey) (f : Funds → Funds) (ws : List Wallet)
    → funds_of j (write_wallet k f ws)
      ≡ (if same_wallet j k then f (funds_of j ws) else funds_of j ws)
unfolding funds_of write_wallet
funds_of-write_wallet j k f [] = ground arith
funds_of-write_wallet j k f (w ∷ ws) = ground (
  arith,
  funds_of-write_wallet j k f ws,
  same_wallet-eq k w.key,
  same_wallet-eq j w.key,
  same_wallet-eq j k,
  same_wallet_refl k,
)

pub funds_of-insert_missing :
    (j k : WalletKey) (ws : List Wallet) → funds_of j (insert_missing k ws) ≡ funds_of j ws
unfolding insert_missing
funds_of-insert_missing j k ws = ground (arith, funds_of-write_wallet j k (λ f. f) ws)

pub ruleset wallet_laws = (funds_of-write_wallet, funds_of-insert_missing)
