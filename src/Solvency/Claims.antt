-- ===== src/Solvency/Claims.antt =====
-- The amounts that orders reserve and pay in a wallet, and the sums of reservations and ledger
-- rows.
use crypto_exchange_pro.Prelude.{ℕ, ◌≡◌, Option, none, some, List, [], ◌∷◌, ◌++◌, if◌then◌else◌}
use crypto_exchange_pro.Prelude.Int.{pos, ◌+ℤ◌, int_laws}
use crypto_exchange_pro.Prelude.Decimal.{Decimal, ◌·◌}
use crypto_exchange_pro.Models.{
  WalletKey, Order, OrderSide, buy, sell, TradingPair, Transaction, TransactionStatus, pending,
  completed, failed, spot, same_wallet, is_open,
}
use crypto_exchange_pro.Tables.Orders.{find_pair, find_order, write_order}

abbrev pub spot_key : ℕ → ℕ → WalletKey
spot_key user_id asset_id = record { user_id = user_id; asset_id = asset_id; type = spot }

-- What a trade takes from the wallet: the notional in quote for a purchase, else the quantity.
abbrev pub spent : WalletKey → ℕ → TradingPair → OrderSide → Decimal → Decimal → Decimal
spent k user_id p buy qty notional =
    if same_wallet k (spot_key user_id p.quote_asset_id) then notional else pos 0
spent k user_id p sell qty notional =
    if same_wallet k (spot_key user_id p.base_asset_id) then qty else pos 0

-- What a trade adds to the wallet.
abbrev pub received : WalletKey → ℕ → TradingPair → OrderSide → Decimal → Decimal → Decimal
received k user_id p buy qty notional =
    if same_wallet k (spot_key user_id p.base_asset_id) then qty else pos 0
received k user_id p sell qty notional =
    if same_wallet k (spot_key user_id p.quote_asset_id) then notional else pos 0

abbrev pub reserved_at : WalletKey → Order → Option TradingPair → Option Decimal → Decimal
reserved_at k o (some p) (some price) = spent k o.user_id p o.side o.qty (o.qty · price)
reserved_at k o (some p) none = pos 0
reserved_at k o none price = pos 0

-- What an order keeps frozen in the wallet while it is open.
unfoldable pub reserved_by : List TradingPair → WalletKey → Order → Decimal
reserved_by pairs k o =
    if is_open o.status then reserved_at k o (find_pair o.pair_id pairs) o.price else pos 0

unfoldable pub reserved : List TradingPair → WalletKey → List Order → Decimal
reserved pairs k [] = pos 0
reserved pairs k (o ∷ os) = reserved_by pairs k o +ℤ reserved pairs k os

abbrev pub booked : TransactionStatus → Decimal → Decimal
booked completed delta = delta
booked pending delta = pos 0
booked failed delta = pos 0

unfoldable pub ledger_by : WalletKey → Transaction → Decimal
ledger_by k t = if same_wallet k t.wallet then booked t.status t.delta else pos 0

-- The sum of the wallet's completed ledger rows.
unfoldable pub ledger : WalletKey → List Transaction → Decimal
ledger k [] = pos 0
ledger k (t ∷ ts) = ledger_by k t +ℤ ledger k ts

pub reserved-append :
    (pairs : List TradingPair) (k : WalletKey) (os : List Order) (o : Order)
    → reserved pairs k (os ++ o ∷ []) ≡ reserved pairs k os +ℤ reserved_by pairs k o
unfolding reserved
reserved-append pairs k [] o = omega int_laws
reserved-append pairs k (x ∷ os) o = grind (int_laws, reserved-append pairs k os o)

pub reserved-write_order :
    (pairs : List TradingPair) (k : WalletKey) (i : ℕ) (f : Order → Order) (os : List Order)
    (old : Order)
    → find_order i os ≡ some old
    → reserved pairs k (write_order i f os) +ℤ reserved_by pairs k old
      ≡ reserved pairs k os +ℤ reserved_by pairs k (f old)
unfolding reserved find_order write_order
reserved-write_order pairs k i f [] old e = cc
reserved-write_order pairs k i f (x ∷ os) old e =
    grind (int_laws, reserved-write_order pairs k i f os old)

pub ledger-append :
    (k : WalletKey) (ts : List Transaction) (t : Transaction)
    → ledger k (ts ++ t ∷ []) ≡ ledger k ts +ℤ ledger_by k t
unfolding ledger
ledger-append k [] t = omega int_laws
ledger-append k (x ∷ ts) t = grind (int_laws, ledger-append k ts t)
