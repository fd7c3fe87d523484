-- ===== src/Solvency/Requests.antt =====
-- The rows of the orders table under the exchange's requests, whatever the wallets hold.
use crypto_exchange_pro.Prelude.{
  ℕ, ◌≡◌, refl, ap, false, Option, none, some, String, arith, Bool-cases, Option-cases, inl, inr,
}
use crypto_exchange_pro.Prelude.Int.{pos, leb_ℤ}
use crypto_exchange_pro.Prelude.Decimal.{Decimal}
use crypto_exchange_pro.Models.{
  OrderSide, OrderType, TradingPair, WalletKey, WalletType, TransactionType, wallet_type_eq,
  is_open, is_market,
}
use crypto_exchange_pro.Session.{Db, Error, proceed}
use crypto_exchange_pro.Tables.Orders.{find_asset, find_pair, find_symbol, write_order}
use crypto_exchange_pro.Tables.Wallets.{insert_missing}
use crypto_exchange_pro.Market.{Feed}
use crypto_exchange_pro.WalletService.{credit, debit, transfer}
use crypto_exchange_pro.Trading.Cancel.{cancel_order, cancel_row, find_own}
use crypto_exchange_pro.Trading.Place.{
  place_limit, place_market, refresh_order, place_on, place_order,
}
use crypto_exchange_pro.Lifecycle.{cancels, Advances-write_order}
use crypto_exchange_pro.Solvency.Claims.{spot_key}
use crypto_exchange_pro.Solvency.Effects.{covered, short, cover-Covering, unfreeze_limit-Runs}
use crypto_exchange_pro.Solvency.Deposits.{key_of}
use crypto_exchange_pro.Solvency.Cancelling.{find_own-find_order}
use crypto_exchange_pro.Solvency.Rows.{
  HasFresh, IsKept, IsKept-refl, Keeps, closed-IsKept, Adds-or_rollback, then_sweep-Adds,
  refreshed-Keeps, place_limit-Adds, place_market-Adds,
}

module _ (feed : Feed) (db : Db) (u : ℕ) (fresh : HasFresh db) where
  resting-Keeps :
      (p : TradingPair) (side : OrderSide) (type : OrderType) (qty : Decimal)
      (price : Option Decimal)
      → is_market type ≡ false
      → Keeps db (proceed (place_on feed db u p side type qty price db) refresh_order)
  unfolding place_on
  resting-Keeps p side type qty none kind = rw kind tt
  resting-Keeps p side type qty (some price) kind = elim (Bool-cases (leb_ℤ price (pos 0))) [
    | inl t ↦ rw (kind, t) tt
    | inr f ↦
        rw (kind, f)
          (refreshed-Keeps db _ fresh (
            Adds-or_rollback db db _ (
              then_sweep-Adds feed u db (place_limit u p side type qty price)
                (place_limit-Adds db u p side qty fresh type price))))
  ]

  place_on-Keeps :
      (p : TradingPair) (side : OrderSide) (type : OrderType) (qty : Decimal)
      (price : Option Decimal)
      → Keeps db (proceed (place_on feed db u p side type qty price db) refresh_order)
  unfolding place_on
  place_on-Keeps p side OrderType.market qty price = refreshed-Keeps db _ fresh (
      Adds-or_rollback db db _ (
        then_sweep-Adds feed u db (place_market feed u p side qty)
          (place_market-Adds db u p side qty fresh feed)))
  place_on-Keeps p side OrderType.limit qty price =
      resting-Keeps p side OrderType.limit qty price refl
  place_on-Keeps p side OrderType.take_profit qty price =
      resting-Keeps p side OrderType.take_profit qty price refl
  place_on-Keeps p side OrderType.stop_loss qty price =
      resting-Keeps p side OrderType.stop_loss qty price refl

  pub place_order-Keeps :
      (symbol : String) (side : OrderSide) (type : OrderType) (qty : Decimal)
      (price : Option Decimal)
      → Keeps db (place_order feed u symbol side type qty price db)
  unfolding place_order
  place_order-Keeps symbol side type qty price = elim (Bool-cases (leb_ℤ qty (pos 0))) [
    | inl t ↦ rw t tt
    | inr f ↦ elim (Option-cases (find_symbol symbol db.pairs)) [
      | inl e ↦ rw (f, e) tt
      | inr (p, e) ↦ elim (Bool-cases p.is_active) [
        | inr off ↦ rw (f, e, off) tt
        | inl on ↦ simp (f, e, on) (place_on-Keeps p side type qty price)
      ]
    ]
  ]

pub cancel_order-Keeps : (u i : ℕ) (db : Db) → HasFresh db → Keeps db (cancel_order u i db)
unfolding cancel_order
cancel_order-Keeps u i db fresh = elim (Option-cases (find_own u i db.orders)) [
  | inl e ↦ simp e tt
  | inr (o, own) ↦ elim (Bool-cases (is_open o.status)) [
    | inr f ↦ simp (own, f) tt
    | inl t ↦ elim (Option-cases (find_pair o.pair_id db.pairs)) [
      | inl n ↦ simp (own, t, n) tt
      | inr (p, n) ↦ elim (Option-cases o.price) [
        | inl m ↦ simp (own, t, n, m) tt
        | inr (price, m) ↦
            let (found, key, owner) = find_own-find_order u i db.next_id db.orders o own fresh in
            let (db1, runs, same, moves) = unfreeze_limit-Runs db u p o.side o.qty price in
            simp (own, t, n, m, runs)
              (closed-IsKept db _ o cancel_row (λ x. refl) found
                (Advances-write_order db.orders cancel_row o (λ x. refl) found (cancels t refl))
                (ap (write_order o.id cancel_row) same.orders) (omega (arith, same.next_id)) fresh)
      ]
    ]
  ]
]

module _ (db : Db) (u : ℕ) (symbol : String) (amount : Decimal) (fresh : HasFresh db) where
  pub credit-Keeps :
      (type : TransactionType) (ref : Option (WalletKey × WalletKey))
      → Keeps db (credit u symbol amount type ref db)
  unfolding credit
  credit-Keeps type ref = elim (Bool-cases (leb_ℤ amount (pos 0))) [
    | inl t ↦ rw t tt
    | inr f ↦ elim (Option-cases (find_asset symbol db.assets)) [
      | inl e ↦ rw (f, e) tt
      | inr (a, e) ↦
          rw (f, e) (record { advances = (IsKept-refl db fresh).advances; fresh = fresh })
    ]
  ]

  -- Also where the call fails.
  pub credit-IsKept :
      (type : TransactionType) (ref : Option (WalletKey × WalletKey))
      → IsKept db (credit u symbol amount type ref db).1
  unfolding credit
  credit-IsKept type ref = elim (Bool-cases (leb_ℤ amount (pos 0))) [
    | inl t ↦ rw t (IsKept-refl db fresh)
    | inr f ↦ elim (Option-cases (find_asset symbol db.assets)) [
      | inl e ↦ rw (f, e) (IsKept-refl db fresh)
      | inr (a, e) ↦
          rw (f, e) (record { advances = (IsKept-refl db fresh).advances; fresh = fresh })
    ]
  ]

  pub debit-Keeps :
      (type : TransactionType) (ref : Option (WalletKey × WalletKey))
      → Keeps db (debit u symbol amount type ref db)
  unfolding debit
  debit-Keeps type ref = elim (Bool-cases (leb_ℤ amount (pos 0))) [
    | inl t ↦ rw t tt
    | inr f ↦ elim (Option-cases (find_asset symbol db.assets)) [
      | inl e ↦ rw (f, e) tt
      | inr (a, e) ↦
          let key = spot_key u a.id in
          let db1 = record db { wallets = insert_missing key db.wallets } in
          elim (cover-Covering key amount Error.insufficient_available db1) [
            | short c x ↦ rw (f, e, c) tt
            | covered c x ↦
                rw (f, e, c) (record { advances = (IsKept-refl db fresh).advances; fresh = fresh })
          ]
    ]
  ]

  pub transfer-Keeps :
      (from_type to_type : WalletType) → Keeps db (transfer u symbol from_type to_type amount db)
  unfolding transfer
  transfer-Keeps from_type to_type = elim (Bool-cases (leb_ℤ amount (pos 0))) [
    | inl t ↦ rw t tt
    | inr f ↦ elim (Bool-cases (wallet_type_eq from_type to_type)) [
      | inl t ↦ rw (f, t) tt
      | inr d ↦ elim (Option-cases (find_asset symbol db.assets)) [
        | inl e ↦ rw (f, d, e) tt
        | inr (a, e) ↦
            let source = key_of u a.id from_type in
            let target = key_of u a.id to_type in
            let db1 = record db {
              wallets = insert_missing target (insert_missing source db.wallets);
            } in
            elim (cover-Covering source amount Error.insufficient_available db1) [
              | short c x ↦ rw (f, d, e, c) tt
              | covered c x ↦
                  rw (f, d, e, c)
                    (record { advances = (IsKept-refl db fresh).advances; fresh = fresh })
            ]
      ]
    ]
  ]
