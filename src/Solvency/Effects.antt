-- ===== src/Solvency/Effects.antt =====
-- The steps of backend/app/services/trading.py that move money, on one wallet and its ledger.
use crypto_exchange_pro.Prelude.{
  ℕ, ⊤, ◌≡◌, ap, ◌⊎◌, inl, inr, refl, Bool-cases, arith, if◌then◌else◌,
}
use crypto_exchange_pro.Prelude.Int.{pos, ◌+ℤ◌, ◌-ℤ◌, ◌≤ℤ◌, int_laws, ltb_ℤ}
use crypto_exchange_pro.Prelude.Decimal.{Decimal, ◌·◌}
use crypto_exchange_pro.Models.{WalletKey, Funds, OrderSide, buy, sell, TradingPair, same_wallet}
use crypto_exchange_pro.Session.{Db, Error, Result, Action, ok, err, proceed}
use crypto_exchange_pro.Tables.Wallets.{
  funds_of, funds_of-insert_missing, insert_missing, wallet_laws, same_wallet-eq,
}
use crypto_exchange_pro.WalletService.{read_funds, cover}
use crypto_exchange_pro.Trading.Limit.{settle_limit, freeze_limit, unfreeze_limit}
use crypto_exchange_pro.Trading.Place.{settle_market}
use crypto_exchange_pro.Solvency.Invariant.{IsBacked}
use crypto_exchange_pro.Solvency.Claims.{
  spent, received, spot_key, ledger, ledger_by, ledger-append,
}

-- The change of a wallet by given amounts.
pub record Changes (w w' : Funds) (led led' balance available frozen : Decimal) : Type 0 where
  pub balances : w'.balance ≡ w.balance +ℤ balance
  pub availables : w'.available ≡ w.available +ℤ available
  pub frozens : w'.frozen ≡ w.frozen +ℤ frozen
  pub ledgers : led' ≡ led +ℤ balance

-- A change keeps a wallet backed if it moves the balance with its parts, the reservations with
-- what is frozen, and leaves the available funds at zero or more.
pub IsBacked-Changes :
    (w w' : Funds) (held held' led led' balance available frozen : Decimal)
    → IsBacked w held led
    → Changes w w' led led' balance available frozen
    → balance ≡ available +ℤ frozen
    → held' ≡ held +ℤ frozen
    → pos 0 ≤ℤ w.available +ℤ available
    → IsBacked w' held' led'
IsBacked-Changes w w' held held' led led' balance available frozen b c split keeps nonneg = record {
  splits = grind (int_laws, b.splits, c.balances, c.availables, c.frozens);
  covered = grind (int_laws, c.availables);
  reserves = grind (int_laws, b.reserves, c.frozens);
  books = grind (int_laws, b.books, c.balances, c.ledgers);
}

abbrev pub Effect : Db → Db → WalletKey → Decimal → Decimal → Decimal → Type 0
Effect db db' k =
    Changes (funds_of k db.wallets) (funds_of k db'.wallets) (ledger k db.transactions)
      (ledger k db'.transactions)

pub settle_limit-Effect :
    (db : Db) (k : WalletKey) (u : ℕ) (p : TradingPair) (side : OrderSide) (qty notional : Decimal)
    → let out = spent k u p side qty notional in
      let back = received k u p side qty notional in
      Effect db (settle_limit u p side qty notional db).1 k (back -ℤ out) back (pos 0 -ℤ out)
unfolding settle_limit ledger_by
settle_limit-Effect db k u p buy qty notional = simp (wallet_laws, ledger-append) (grind int_laws)
settle_limit-Effect db k u p sell qty notional = simp (wallet_laws, ledger-append) (grind int_laws)

-- The two ends of the funds check: it changes nothing, and passes when the amount is covered.
pub data Covering (db : Db) (k : WalletKey) (amount : Decimal) (e : Error) : Type 0 where
  covered :
      cover k amount e db ≡ (ok tt, db)
      → amount ≤ℤ (funds_of k db.wallets).available
      → Covering db k amount e
  short :
      cover k amount e db ≡ (err e, db)
      → ¬ (amount ≤ℤ (funds_of k db.wallets).available)
      → Covering db k amount e

pub cover-Covering :
    (k : WalletKey) (amount : Decimal) (e : Error) (db : Db) → Covering db k amount e
unfolding cover read_funds
cover-Covering k amount e db = elim (Bool-cases (ltb_ℤ (funds_of k db.wallets).available amount)) [
  | inl t ↦ short (rw t) (ground arith)
  | inr f ↦ covered (rw f) (ground arith)
]

-- A call that returns has covered what it takes from the wallet.
abbrev pub Covers : Db → WalletKey → Decimal → Type 0
Covers db k out = (out ≤ℤ (funds_of k db.wallets).available) ⊎ (out ≡ pos 0)

-- What is taken from one wallet is covered if that wallet holds it.
pub Covers-at :
    (db : Db) (k key : WalletKey) (x : Decimal)
    → x ≤ℤ (funds_of key (insert_missing key db.wallets)).available
    → Covers db k (if same_wallet k key then x else pos 0)
Covers-at db k key x h = elim (Bool-cases (same_wallet k key)) [
  | inl e ↦ rw e (inl (rw (same_wallet-eq k key e) (rw funds_of-insert_missing at h)))
  | inr e ↦ rw e (inr refl)
]

pub settle_market-Effect :
    (db : Db) (k : WalletKey) (u : ℕ) (p : TradingPair) (side : OrderSide) (qty notional : Decimal)
    → (settle_market u p side qty notional db).0 ≡ ok tt
    → let out = spent k u p side qty notional in
      let net = received k u p side qty notional -ℤ out in
      Effect db (settle_market u p side qty notional db).1 k net net (pos 0) × Covers db k out
unfolding settle_market ledger_by
settle_market-Effect db k u p buy qty notional h =
    let key = spot_key u p.quote_asset_id in
    let db' = record db { wallets = insert_missing key db.wallets } in
    elim (cover-Covering key notional Error.insufficient_quote db') [
      | covered e c ↦
          (rw e (simp (wallet_laws, ledger-append) (grind int_laws)), Covers-at db k key notional c)
      | short e c ↦ absurd (cc (ap (λ r. r.0) e))
    ]
settle_market-Effect db k u p sell qty notional h =
    let key = spot_key u p.base_asset_id in
    let db' = record db { wallets = insert_missing key db.wallets } in
    elim (cover-Covering key qty Error.insufficient_base db') [
      | covered e c ↦
          (rw e (simp (wallet_laws, ledger-append) (grind int_laws)), Covers-at db k key qty c)
      | short e c ↦ absurd (let h' = rw e at h in cc)
    ]

pub freeze_limit-Effect :
    (db : Db) (k : WalletKey) (u : ℕ) (p : TradingPair) (side : OrderSide) (qty price : Decimal)
    → (freeze_limit u p side qty price db).0 ≡ ok tt
    → let held = spent k u p side qty (qty · price) in
      Effect db (freeze_limit u p side qty price db).1 k (pos 0) (pos 0 -ℤ held) held
      × Covers db k held
unfolding freeze_limit
freeze_limit-Effect db k u p buy qty price h =
    let key = spot_key u p.quote_asset_id in
    let db' = record db { wallets = insert_missing key db.wallets } in
    elim (cover-Covering key (qty · price) Error.insufficient_quote db') [
      | covered e c ↦ (rw e (simp wallet_laws (grind int_laws)), Covers-at db k key (qty · price) c)
      | short e c ↦ absurd (let h' = rw e at h in cc)
    ]
freeze_limit-Effect db k u p sell qty price h =
    let key = spot_key u p.base_asset_id in
    let db' = record db { wallets = insert_missing key db.wallets } in
    elim (cover-Covering key qty Error.insufficient_base db') [
      | covered e c ↦ (rw e (simp wallet_laws (grind int_laws)), Covers-at db k key qty c)
      | short e c ↦ absurd (let h' = rw e at h in cc)
    ]

pub unfreeze_limit-Effect :
    (db : Db) (k : WalletKey) (u : ℕ) (p : TradingPair) (side : OrderSide) (qty price : Decimal)
    → let held = spent k u p side qty (qty · price) in
      Effect db (unfreeze_limit u p side qty price db).1 k (pos 0) held (pos 0 -ℤ held)
unfolding unfreeze_limit
unfreeze_limit-Effect db k u p buy qty price = simp wallet_laws (grind int_laws)
unfreeze_limit-Effect db k u p sell qty price = simp wallet_laws (grind int_laws)

-- The pairs, orders and trades stay as they are.
pub record SameBook (db db' : Db) : Type 0 where
  pub pairs : db'.pairs ≡ db.pairs
  pub orders : db'.orders ≡ db.orders
  pub trades : db'.trades ≡ db.trades
  pub next_id : db'.next_id ≡ db.next_id

-- A step that returns in `db'`, with its effect on every wallet.
abbrev pub Runs : Result ⊤ × Db → Db → (Db → WalletKey → Type 0) → Type 0
Runs r db effect =
    (db' : Db) × (r ≡ (ok tt, db')) × SameBook db db' × ((k : WalletKey) → effect db' k)

-- A step that runs, or is refused.
abbrev pub RunsOrFails : Result ⊤ × Db → Db → (Db → WalletKey → Type 0) → Type 0
RunsOrFails r db effect = Runs r db effect ⊎ ((e : Error) × (db' : Db) × (r ≡ (err e, db')))

module _ (db : Db) (u : ℕ) (p : TradingPair) where
  pub settle_limit-Runs :
      (side : OrderSide) (qty notional : Decimal)
      → Runs (settle_limit u p side qty notional db) db λ db' k.
        let out = spent k u p side qty notional in
        let back = received k u p side qty notional in
        Effect db db' k (back -ℤ out) back (pos 0 -ℤ out)
  unfolding settle_limit
  settle_limit-Runs buy qty notional = (
    _,
    refl,
    record { pairs = refl; orders = refl; trades = refl; next_id = refl },
    λ k. settle_limit-Effect db k u p buy qty notional,
  )
  settle_limit-Runs sell qty notional = (
    _,
    refl,
    record { pairs = refl; orders = refl; trades = refl; next_id = refl },
    λ k. settle_limit-Effect db k u p sell qty notional,
  )

  pub unfreeze_limit-Runs :
      (side : OrderSide) (qty price : Decimal)
      → Runs (unfreeze_limit u p side qty price db) db λ db' k.
        let held = spent k u p side qty (qty · price) in
        Effect db db' k (pos 0) held (pos 0 -ℤ held)
  unfolding unfreeze_limit
  unfreeze_limit-Runs buy qty price = (
    _,
    refl,
    record { pairs = refl; orders = refl; trades = refl; next_id = refl },
    λ k. unfreeze_limit-Effect db k u p buy qty price,
  )
  unfreeze_limit-Runs sell qty price = (
    _,
    refl,
    record { pairs = refl; orders = refl; trades = refl; next_id = refl },
    λ k. unfreeze_limit-Effect db k u p sell qty price,
  )

  -- A funds check, then steps that cannot fail.
  checked :
      (key : WalletKey) (amount : Decimal) (e : Error) (rest : ⊤ → Action ⊤)
      (effect : Db → WalletKey → Type 0)
      → let db' = record db { wallets = insert_missing key db.wallets } in
        let r = proceed (cover key amount e db') rest in
        ((rest tt db').0 ≡ ok tt)
        → SameBook db (rest tt db').1
        → (r.0 ≡ ok tt → (k : WalletKey) → effect r.1 k)
        → RunsOrFails r db effect
  checked key amount e rest effect returns same moves =
      let db' = record db { wallets = insert_missing key db.wallets } in
      let after = (rest tt db').1 in
      elim (cover-Covering key amount e db') [
        | covered c x ↦
            inl (after, rw c (ap (λ r. (r, after)) returns), same, (rw c at moves) returns)
        | short c x ↦ inr (e, db', rw c)
      ]

  pub settle_market-Runs :
      (side : OrderSide) (qty notional : Decimal)
      → RunsOrFails (settle_market u p side qty notional db) db λ db' k.
        let out = spent k u p side qty notional in
        let net = received k u p side qty notional -ℤ out in
        Effect db db' k net net (pos 0) × Covers db k out
  unfolding settle_market
  settle_market-Runs buy qty notional =
      checked (spot_key u p.quote_asset_id) notional Error.insufficient_quote _ _ refl
        (record { pairs = refl; orders = refl; trades = refl; next_id = refl })
        (λ h k. settle_market-Effect db k u p buy qty notional h)
  settle_market-Runs sell qty notional =
      checked (spot_key u p.base_asset_id) qty Error.insufficient_base _ _ refl
        (record { pairs = refl; orders = refl; trades = refl; next_id = refl })
        (λ h k. settle_market-Effect db k u p sell qty notional h)

  pub freeze_limit-Runs :
      (side : OrderSide) (qty price : Decimal)
      → RunsOrFails (freeze_limit u p side qty price db) db λ db' k.
        let held = spent k u p side qty (qty · price) in
        Effect db db' k (pos 0) (pos 0 -ℤ held) held × Covers db k held
  unfolding freeze_limit
  freeze_limit-Runs buy qty price =
      checked (spot_key u p.quote_asset_id) (qty · price) Error.insufficient_quote _ _ refl
        (record { pairs = refl; orders = refl; trades = refl; next_id = refl })
        (λ h k. freeze_limit-Effect db k u p buy qty price h)
  freeze_limit-Runs sell qty price =
      checked (spot_key u p.base_asset_id) qty Error.insufficient_base _ _ refl
        (record { pairs = refl; orders = refl; trades = refl; next_id = refl })
        (λ h k. freeze_limit-Effect db k u p sell qty price h)
