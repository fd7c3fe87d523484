-- ===== src/Solvency/History.antt =====
-- Histories of events on the running exchange.
use crypto_exchange_pro.Prelude.{
  ℕ, ◌+◌, arith, ◌-◌, ◌*◌, ◌≡◌, refl, sym, ap, subst, ◌∙◌, false, none, some, String, List, [], ◌∷◌,
  All, Bool-cases, Option-cases, inl, inr,
}
use crypto_exchange_pro.Prelude.Int.{pos, ◌≤ℤ◌, leb_ℤ, ltb_ℤ, int_laws}
use crypto_exchange_pro.Prelude.Decimal.{Decimal}
use crypto_exchange_pro.Models.{WalletType, Order, is_open, Asset, TradingPair, TransactionType}
use crypto_exchange_pro.Session.{Db, Result, ok, err, or_rollback}
use crypto_exchange_pro.Tables.Orders.{find_order, IsFresh-mono, order_ids}
use crypto_exchange_pro.Market.{Feed}
use crypto_exchange_pro.Exchange.{
  Event, registers, places, cancels, deposits, withdraws, transfers, reads_all, reads, monitors,
  cleans, waits, serve, run, seeded, monitor_round, cleanup_stale_transactions,
}
use crypto_exchange_pro.Auth.{add_account}
use crypto_exchange_pro.Routers.Orders.{
  PlaceOrderRequest, place_order_endpoint, cancel_my_order, parse_side,
}
use crypto_exchange_pro.Routers.Wallets.{deposit_endpoint, withdraw_endpoint, transfer_endpoint}
use crypto_exchange_pro.Routers.Notifications.{read_all, read_notification}
use crypto_exchange_pro.WalletService.{purge_stale_transactions}
use crypto_exchange_pro.Lifecycle.{Advances-trans, Advance-closed}
use crypto_exchange_pro.Solvency.Claims.{ledger, reserved}
use crypto_exchange_pro.Tables.Wallets.{funds_of}
use crypto_exchange_pro.Solvency.Invariant.{IsSolvent, IsNext, IsAtomic, IsKeyed, kept-IsNext}
use crypto_exchange_pro.Solvency.Stored.{FitsRequest, FitsEvent}
use crypto_exchange_pro.Solvency.Placing.{place_order-IsAtomic}
use crypto_exchange_pro.Solvency.Validation.{validate_order-cases}
use crypto_exchange_pro.Solvency.Rows.{HasFresh}
use crypto_exchange_pro.Solvency.Events.{run-IsKept}
use crypto_exchange_pro.Solvency.Cancelling.{cancel_order-IsAtomic}
use crypto_exchange_pro.Solvency.Deposits.{credit-IsAtomic, debit-IsAtomic, transfer-IsAtomic}
use crypto_exchange_pro.Solvency.Sweeps.{check_conditional_orders-Succeeds}
use crypto_exchange_pro.Solvency.Purging.{ledger-select}

-- What an atomic call leaves comes next.
after-IsNext :
    {A : Type 0} (start : Db) (r : Result A × Db)
    → IsSolvent start
    → IsAtomic start r
    → IsNext start r.1
after-IsNext start (ok a, db) s h = h
after-IsNext start (err e, db) s h = subst (IsNext start) (sym h) (kept-IsNext start start s refl)

rolled-IsAtomic :
    {A : Type 0} (start : Db) (r : Result A × Db)
    → IsAtomic start r
    → IsAtomic start (or_rollback start r)
rolled-IsAtomic start (ok a, db) h = h
rolled-IsAtomic start (err e, db) h = refl

module _ (feed : Feed) (nonneg : (n : ℕ) (s : String) → pos 0 ≤ℤ feed n s) (db : Db)
    (s : IsSolvent db) where
  place_order_endpoint-IsAtomic :
      (u : ℕ) (r : PlaceOrderRequest)
      → FitsRequest r
      → IsAtomic db (place_order_endpoint feed u r db)
  unfolding place_order_endpoint
  place_order_endpoint-IsAtomic u r fits = elim (validate_order-cases r db) [
    | inr (e, v) ↦ rw v refl
    | inl (type, v, parsed) ↦ elim (Option-cases (parse_side r.side)) [
      | inl e ↦ rw (v, e) refl
      | inr (side, e) ↦
          rw (v, e)
            (rolled-IsAtomic db _ (
              place_order-IsAtomic feed db u r.pair side type r.qty r.price nonneg
                (fits type parsed) s))
    ]
  ]

  deposit_endpoint-IsAtomic :
      (u : ℕ) (symbol : String) (x : Decimal) → IsAtomic db (deposit_endpoint u symbol x db)
  unfolding deposit_endpoint
  deposit_endpoint-IsAtomic u symbol x = elim (Bool-cases (leb_ℤ x (pos 0))) [
    | inl t ↦ rw t refl
    | inr f ↦
        rw f (rolled-IsAtomic db _ (credit-IsAtomic db u symbol x TransactionType.deposit none s))
  ]

  withdraw_endpoint-IsAtomic :
      (u : ℕ) (symbol : String) (x : Decimal) → IsAtomic db (withdraw_endpoint u symbol x db)
  unfolding withdraw_endpoint
  withdraw_endpoint-IsAtomic u symbol x = elim (Bool-cases (leb_ℤ x (pos 0))) [
    | inl t ↦ rw t refl
    | inr f ↦ rw f (debit-IsAtomic db u symbol x TransactionType.withdrawal none s)
  ]

  transfer_endpoint-IsAtomic :
      (u : ℕ) (symbol : String) (source target : WalletType) (x : Decimal)
      → IsAtomic db (transfer_endpoint u symbol source target x db)
  unfolding transfer_endpoint
  transfer_endpoint-IsAtomic u symbol source target x = elim (Bool-cases (leb_ℤ x (pos 0))) [
    | inl t ↦ rw t refl
    | inr f ↦ rw f (transfer-IsAtomic db u symbol x source target s)
  ]

  add_account-IsNext : (symbol : String) (bonus : Decimal) → IsNext db (add_account symbol bonus db)
  unfolding add_account
  add_account-IsNext symbol bonus =
      let db' = record db { next_id = db.next_id + 1 } in
      let s' : IsSolvent db' = record {
        backed = s.backed;
        sound = s.sound;
        fresh =
            IsFresh-mono db.next_id (db.next_id + 1) (order_ids db.orders) (omega arith) s.fresh;
        keyed = s.keyed;
      } in
      elim (Bool-cases (ltb_ℤ (pos 0) bonus)) [
        | inr f ↦ rw f (kept-IsNext db db' s' refl)
        | inl t ↦
            let h =
              after-IsNext db' _ s'
                (credit-IsAtomic db' db.next_id symbol bonus TransactionType.deposit none s') in
            rw t (record { solvent = h.solvent; advances = h.advances })
      ]

  -- Every event keeps the exchange solvent, and at most fills or cancels its open orders.
  pub serve-IsNext : (e : Event) → FitsEvent e → IsNext db (serve feed e db)
  unfolding serve cancel_my_order monitor_round cleanup_stale_transactions purge_stale_transactions
      read_all read_notification
  serve-IsNext (registers symbol bonus) fits = add_account-IsNext symbol bonus
  serve-IsNext (places u r) fits = after-IsNext db _ s (place_order_endpoint-IsAtomic u r fits)
  serve-IsNext (cancels u i) fits =
      after-IsNext db _ s (rolled-IsAtomic db _ (cancel_order-IsAtomic u i db s))
  serve-IsNext (deposits u symbol x) fits =
      after-IsNext db _ s (deposit_endpoint-IsAtomic u symbol x)
  serve-IsNext (withdraws u symbol x) fits =
      after-IsNext db _ s (withdraw_endpoint-IsAtomic u symbol x)
  serve-IsNext (transfers u symbol source target x) fits =
      after-IsNext db _ s (transfer_endpoint-IsAtomic u symbol source target x)
  serve-IsNext (reads_all u) fits = kept-IsNext db db s refl
  serve-IsNext (reads u i) fits = kept-IsNext db db s refl
  serve-IsNext monitors fits =
      let (a, db', runs, swept) = check_conditional_orders-Succeeds feed none db s in
      rw (runs, serve) (record { solvent = swept.solvent; advances = swept.advances })
  serve-IsNext (cleans days) fits =
      kept-IsNext db _
        (record {
          backed =
              λ k. rw (ledger-select k (db.now - days * 86400000000) db.transactions) (s.backed k);
          sound = s.sound;
          fresh = s.fresh;
          keyed = s.keyed;
        })
        refl
  serve-IsNext (waits t) fits =
      kept-IsNext db _
        (record { backed = s.backed; sound = s.sound; fresh = s.fresh; keyed = s.keyed }) refl

-- A solvent exchange stays solvent through any history of events, at live prices of zero or more and
-- with requests for orders whose amounts the columns hold as they are, and each of its orders is still
-- there: as it was, or open before and filled or cancelled once.
pub run-IsNext :
    (feed : Feed) (es : List Event) (db : Db)
    → ((n : ℕ) (s : String) → pos 0 ≤ℤ feed n s)
    → All FitsEvent es
    → IsSolvent db
    → IsNext db (run feed es db)
unfolding run
run-IsNext feed [] db nonneg fits s = kept-IsNext db db s refl
run-IsNext feed (e ∷ es) db nonneg fits s =
    let first = serve-IsNext feed nonneg db s e fits.0 in
    let rest = run-IsNext feed es (serve feed e db) nonneg fits.1 first.solvent in
    record {
      solvent = rest.solvent;
      advances = Advances-trans db.orders (serve feed e db).orders _ first.advances rest.advances;
    }

pub seeded-IsSolvent :
    (assets : List Asset) (pairs : List TradingPair) (now : ℕ)
    → IsKeyed pairs
    → IsSolvent (seeded assets pairs now)
unfolding seeded funds_of reserved ledger
seeded-IsSolvent assets pairs now keyed = record {
  backed = λ k. omega int_laws;
  sound = tt;
  fresh = tt;
  keyed = keyed;
}

-- From a catalogue of assets and of pairs with different keys, at live prices of zero or more and with
-- requests for orders whose amounts the columns hold as they are, any history of registrations with
-- their bonus, orders and cancellations, deposits, withdrawals and transfers, reading of notifications,
-- monitor rounds, cleanups and waiting leaves every wallet with balance = available + frozen, available funds of zero or more, as
-- much frozen as the user's open orders reserve in it, and a balance equal to the sum of its completed
-- ledger rows.
pub run-seeded-IsSolvent :
    (feed : Feed) (es : List Event) (assets : List Asset) (pairs : List TradingPair) (now : ℕ)
    → ((n : ℕ) (s : String) → pos 0 ≤ℤ feed n s)
    → All FitsEvent es
    → IsKeyed pairs
    → IsSolvent (run feed es (seeded assets pairs now))
run-seeded-IsSolvent feed es assets pairs now nonneg fits keyed =
    let start = seeded assets pairs now in
    (run-IsNext feed es start nonneg fits (seeded-IsSolvent assets pairs now keyed)).solvent

-- In an exchange whose orders have different keys below the next key, an order that is no longer open
-- keeps its row, unchanged, through any history of events, at any live prices.
pub find_order-run :
    (feed : Feed) (es : List Event) (db : Db) (i : ℕ) (o : Order)
    → HasFresh db
    → find_order i db.orders ≡ some o
    → is_open o.status ≡ false
    → find_order i (run feed es db).orders ≡ some o
find_order-run feed es db i o fresh found closed =
    let (o', found', step) = (run-IsKept feed es db fresh).advances i o found in
    found' ∙ ap some (Advance-closed o o' closed step)
