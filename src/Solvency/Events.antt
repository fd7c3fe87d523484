-- ===== src/Solvency/Events.antt =====
-- The rows of the orders table through histories of events, whatever the wallets hold.
use crypto_exchange_pro.Prelude.{
  ℕ, ◌+◌, arith, String, none, List, [], ◌∷◌, Bool-cases, Option-cases, inl, inr,
}
use crypto_exchange_pro.Prelude.Int.{pos, leb_ℤ, ltb_ℤ}
use crypto_exchange_pro.Prelude.Decimal.{Decimal}
use crypto_exchange_pro.Models.{WalletType, TransactionType}
use crypto_exchange_pro.Session.{Db}
use crypto_exchange_pro.Market.{Feed}
use crypto_exchange_pro.Exchange.{
  Event, registers, places, cancels, deposits, withdraws, transfers, reads_all, reads, monitors,
  cleans, waits, serve, run, monitor_round, cleanup_stale_transactions,
}
use crypto_exchange_pro.Auth.{add_account}
use crypto_exchange_pro.Tables.Orders.{IsFresh-mono, order_ids}
use crypto_exchange_pro.Routers.Orders.{
  PlaceOrderRequest, place_order_endpoint, cancel_my_order, parse_side,
}
use crypto_exchange_pro.Routers.Wallets.{deposit_endpoint, withdraw_endpoint, transfer_endpoint}
use crypto_exchange_pro.Routers.Notifications.{read_all, read_notification}
use crypto_exchange_pro.WalletService.{purge_stale_transactions}
use crypto_exchange_pro.Solvency.Validation.{validate_order-cases}
use crypto_exchange_pro.Solvency.Rows.{
  HasFresh, IsKept, IsKept-refl, IsKept-trans, IsKept-commits, check_conditional_orders-Keeps,
}
use crypto_exchange_pro.Solvency.Requests.{
  place_order-Keeps, cancel_order-Keeps, credit-Keeps, credit-IsKept, debit-Keeps, transfer-Keeps,
}

module _ (feed : Feed) (db : Db) (fresh : HasFresh db) where
  place_order_endpoint-IsKept :
      (u : ℕ) (r : PlaceOrderRequest) → IsKept db (place_order_endpoint feed u r db).1
  unfolding place_order_endpoint
  place_order_endpoint-IsKept u r = elim (validate_order-cases r db) [
    | inr (e, v) ↦ rw v (IsKept-refl db fresh)
    | inl (type, v, parsed) ↦ elim (Option-cases (parse_side r.side)) [
      | inl e ↦ rw (v, e) (IsKept-refl db fresh)
      | inr (side, e) ↦
          rw (v, e)
            (IsKept-commits db _ fresh
              (place_order-Keeps feed db u fresh r.pair side type r.qty r.price))
    ]
  ]

  deposit_endpoint-IsKept :
      (u : ℕ) (symbol : String) (x : Decimal) → IsKept db (deposit_endpoint u symbol x db).1
  unfolding deposit_endpoint
  deposit_endpoint-IsKept u symbol x = elim (Bool-cases (leb_ℤ x (pos 0))) [
    | inl t ↦ rw t (IsKept-refl db fresh)
    | inr f ↦
        rw f (
          IsKept-commits db _ fresh (credit-Keeps db u symbol x fresh TransactionType.deposit none))
  ]

  withdraw_endpoint-IsKept :
      (u : ℕ) (symbol : String) (x : Decimal) → IsKept db (withdraw_endpoint u symbol x db).1
  unfolding withdraw_endpoint
  withdraw_endpoint-IsKept u symbol x = elim (Bool-cases (leb_ℤ x (pos 0))) [
    | inl t ↦ rw t (IsKept-refl db fresh)
    | inr f ↦ rw f (
        IsKept-commits db _ fresh (debit-Keeps db u symbol x fresh TransactionType.withdrawal none))
  ]

  transfer_endpoint-IsKept :
      (u : ℕ) (symbol : String) (source target : WalletType) (x : Decimal)
      → IsKept db (transfer_endpoint u symbol source target x db).1
  unfolding transfer_endpoint
  transfer_endpoint-IsKept u symbol source target x = elim (Bool-cases (leb_ℤ x (pos 0))) [
    | inl t ↦ rw t (IsKept-refl db fresh)
    | inr f ↦ rw f (IsKept-commits db _ fresh (transfer-Keeps db u symbol x fresh source target))
  ]

  add_account-IsKept : (symbol : String) (bonus : Decimal) → IsKept db (add_account symbol bonus db)
  unfolding add_account
  add_account-IsKept symbol bonus =
      let db' = record db { next_id = db.next_id + 1 } in
      let fresh' : HasFresh db' =
        IsFresh-mono db.next_id (db.next_id + 1) (order_ids db.orders) (omega arith) fresh in
      let next : IsKept db db' = record {
        advances = (IsKept-refl db fresh).advances;
        fresh = fresh';
      } in
      elim (Bool-cases (ltb_ℤ (pos 0) bonus)) [
        | inr f ↦ rw f next
        | inl t ↦ rw t (
            IsKept-trans db db' _ next
              (credit-IsKept db' db.next_id symbol bonus fresh' TransactionType.deposit none))
      ]

  serve-IsKept : (e : Event) → IsKept db (serve feed e db)
  unfolding serve cancel_my_order monitor_round cleanup_stale_transactions purge_stale_transactions
      read_all read_notification
  serve-IsKept (registers symbol bonus) = add_account-IsKept symbol bonus
  serve-IsKept (places u r) = place_order_endpoint-IsKept u r
  serve-IsKept (cancels u i) = IsKept-commits db _ fresh (cancel_order-Keeps u i db fresh)
  serve-IsKept (deposits u symbol x) = deposit_endpoint-IsKept u symbol x
  serve-IsKept (withdraws u symbol x) = withdraw_endpoint-IsKept u symbol x
  serve-IsKept (transfers u symbol source target x) =
      transfer_endpoint-IsKept u symbol source target x
  serve-IsKept (reads_all u) = IsKept-refl db fresh
  serve-IsKept (reads u i) = IsKept-refl db fresh
  serve-IsKept monitors =
      IsKept-commits db _ fresh (check_conditional_orders-Keeps feed none db fresh)
  serve-IsKept (cleans days) = record { advances = (IsKept-refl db fresh).advances; fresh = fresh }
  serve-IsKept (waits t) = record { advances = (IsKept-refl db fresh).advances; fresh = fresh }

pub run-IsKept :
    (feed : Feed) (es : List Event) (db : Db) → HasFresh db → IsKept db (run feed es db)
unfolding run
run-IsKept feed [] db fresh = IsKept-refl db fresh
run-IsKept feed (e ∷ es) db fresh =
    let first = serve-IsKept feed db fresh e in
    IsKept-trans db (serve feed e db) _ first (run-IsKept feed es (serve feed e db) first.fresh)
