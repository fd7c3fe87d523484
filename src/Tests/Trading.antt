-- ===== src/Tests/Trading.antt =====
-- Trading, deposits and ledgers on a table with one order that waits.
use crypto_exchange_pro.Tests.Sample.{usdt, btc, btc_usdt, order}
use crypto_exchange_pro.Prelude.{ℕ, String, ◌≡◌, refl, false, none, some, List, [], ◌∷◌, arith}
use crypto_exchange_pro.Prelude.Int.{pos, ◌-ℤ◌, ◌≤ℤ◌}
use crypto_exchange_pro.Prelude.Decimal.{whole}
use crypto_exchange_pro.Models.{
  Order, WalletKey, buy, limit, market, stop_loss, open_, spot, funding,
}
use crypto_exchange_pro.Session.{Db, ok, or_rollback}
use crypto_exchange_pro.Market.{Feed}
use crypto_exchange_pro.Exchange.{Event, run, seeded, deposits, places}
use crypto_exchange_pro.Solvency.Invariant.{IsSolvent, IsAtomic, IsKeyed}
use crypto_exchange_pro.Solvency.Effects.{Effect}
use crypto_exchange_pro.Solvency.Claims.{reserved_by}
use crypto_exchange_pro.Solvency.Sweeps.{Succeeds, check_conditional_orders-Succeeds}
use crypto_exchange_pro.Solvency.Completeness.{
  sweep_open_orders_complete, check_conditional_orders_complete,
}
use crypto_exchange_pro.Solvency.Stored.{FitsEvent, FitsColumns}
use crypto_exchange_pro.Session.{◌>>=◌}
use crypto_exchange_pro.Prelude.{All}
use crypto_exchange_pro.Solvency.Placing.{place_order-IsAtomic}
use crypto_exchange_pro.Solvency.Cancelling.{cancel_order-releases}
use crypto_exchange_pro.Solvency.Deposits.{transfer-IsAtomic}
use crypto_exchange_pro.Solvency.RoundTrip.{Restores, place_limit-cancel_order}
use crypto_exchange_pro.Solvency.History.{run-seeded-IsSolvent}
use crypto_exchange_pro.Trading.Place.{place_order, place_limit}
use crypto_exchange_pro.Trading.Cancel.{cancel_order, cancel_row, find_own}
use crypto_exchange_pro.Trading.Sweep.{
  sweep_open_orders, check_conditional_orders, crossed, conditional_triggered,
}
use crypto_exchange_pro.WalletService.{credit, transfer}
use crypto_exchange_pro.Tables.Orders.{find_order, find_pair, write_order}
use crypto_exchange_pro.Tables.Wallets.{insert_missing, funds_of, write_wallet}
use crypto_exchange_pro.Exchange.{serve}
use crypto_exchange_pro.Routers.Wallets.{transfer_endpoint, deposit_endpoint}
use crypto_exchange_pro.Tables.Orders.{find_asset, find_symbol}
use crypto_exchange_pro.Routers.Orders.{
  place_order_endpoint, validate_order, parse_type, parse_side, cancel_my_order,
}
use crypto_exchange_pro.Trading.Place.{
  round_to, refresh_order, then_sweep, add_order, get_pair, place_market, place_on, settle_market,
}
use crypto_exchange_pro.Market.{get_live_price}
use crypto_exchange_pro.Models.{same_wallet}
use crypto_exchange_pro.Prelude.Decimal.{div_half_even, ◌·◌}
use crypto_exchange_pro.Prelude.Int.{neg_ℤ, ◌+ℤ◌}
use crypto_exchange_pro.Routers.Transaction.{commits}
use crypto_exchange_pro.Trading.Limit.{
  add_trade, create_notification, execute_limit_fill, freeze_limit, notify_order_cancelled,
  notify_order_filled, record_fill, settle_limit, unfreeze_limit,
}
use crypto_exchange_pro.Trading.Sweep.{fill_each, try_fill, visit}
use crypto_exchange_pro.WalletService.{
  add_transaction, assign, cover, get_or_create_asset, get_or_create_wallet, read_funds,
}

-- Prices that stand still at 100.
abbrev flat : Feed
flat n s = whole 100

flat-nonneg : (n : ℕ) (s : String) → pos 0 ≤ℤ flat n s
flat-nonneg n s = omega arith

keyed : IsKeyed (btc_usdt ∷ [])
unfolding find_pair
keyed = (refl, tt)

-- After a deposit, a purchase that waits for 90, and a stop-loss purchase that waits for 200.
abbrev dawn : List Event
dawn =
    deposits 5 "USDT" (whole 1000)
    ∷ places 5 (order "buy" "limit" 2 90)
    ∷ places 5 (order "buy" "stop_loss" 1 200)
    ∷ []

dawn-Fits : All FitsEvent dawn
unfolding parse_type round_to ◌·◌ div_half_even
dawn-Fits =
    (tt, (λ type parsed kind. (refl, refl, refl), (λ type parsed kind. (refl, refl, refl), tt)))

another-Fits : FitsColumns limit (whole 1) (some (whole 80))
unfolding round_to ◌·◌ div_half_even
another-Fits kind = (refl, refl, refl)

unfoldable noon : Db
unfolding run
noon = run flat dawn (seeded (usdt ∷ btc ∷ []) (btc_usdt ∷ []) 1000)

noon-IsSolvent : IsSolvent noon
unfolding noon
noon-IsSolvent =
    run-seeded-IsSolvent flat dawn (usdt ∷ btc ∷ []) (btc_usdt ∷ []) 1000 flat-nonneg dawn-Fits
      keyed

abbrev waiting : Order
waiting = record {
  id = 0;
  user_id = 5;
  pair_id = 7;
  side = buy;
  type = limit;
  price = some (whole 90);
  qty = whole 2;
  filled_qty = pos 0;
  avg_fill_price = none;
  status = open_;
  created_at = 1000;
}

place_order-IsAtomic_example :
    IsAtomic noon (place_order flat 5 "BTC/USDT" buy market (whole 1) none noon)
place_order-IsAtomic_example =
    place_order-IsAtomic flat noon 5 "BTC/USDT" buy market (whole 1) none flat-nonneg
      (λ kind. absurd (cc)) noon-IsSolvent

abbrev stop : Order
stop = record waiting { id = 1; type = stop_loss; price = some (whole 200); qty = whole 1 }

-- A purchase of 1 at 80.
abbrev another : Order
another = record waiting { id = 2; price = some (whole 80); qty = whole 1 }

abbrev evening : Db
evening = ((place_limit 5 btc_usdt buy limit (whole 1) (whole 80) >>= refresh_order) noon).1

-- The rows and results that the theorems below are about.
noon_facts :
    (find_own 5 0 noon.orders ≡ some waiting)
    × (find_order 0 (sweep_open_orders flat 5 noon).1.orders ≡ some waiting)
    × (find_pair 7 (sweep_open_orders flat 5 noon).1.pairs ≡ some btc_usdt)
    × (find_order 1 (check_conditional_orders flat none noon).1.orders ≡ some stop)
    × (find_pair 7 (check_conditional_orders flat none noon).1.pairs ≡ some btc_usdt)
    × (find_pair 7 noon.pairs ≡ some btc_usdt)
    × ((place_limit 5 btc_usdt buy limit (whole 1) (whole 80) >>= refresh_order) noon
        ≡ (ok another, evening))
unfolding noon refresh_order round_to insert_missing funds_of serve transfer_endpoint transfer
    find_asset place_order_endpoint validate_order parse_type parse_side place_order find_symbol
    cancel_my_order cancel_order deposit_endpoint credit seeded then_sweep place_limit run
    get_live_price same_wallet div_half_even ◌·◌ neg_ℤ ◌+ℤ◌ ◌-ℤ◌ commits find_order find_pair
    write_order write_wallet find_own add_trade create_notification execute_limit_fill freeze_limit
    notify_order_cancelled notify_order_filled record_fill settle_limit unfreeze_limit add_order
    get_pair place_market place_on settle_market check_conditional_orders conditional_triggered
    crossed fill_each sweep_open_orders try_fill visit add_transaction assign cover
    get_or_create_asset get_or_create_wallet read_funds
noon_facts = (refl, refl, refl, refl, refl, refl, refl)

cancel_order-releases_example :
    (db' : Db) × (cancel_order 5 0 noon ≡ (ok (cancel_row waiting), db'))
    × (db'.orders ≡ write_order 0 cancel_row noon.orders)
    × ((k : WalletKey)
        → let held = reserved_by noon.pairs k waiting in
          Effect noon db' k (pos 0) held (pos 0 -ℤ held))
cancel_order-releases_example =
    cancel_order-releases 5 0 noon waiting noon-IsSolvent noon_facts.0 refl

check_conditional_orders-Succeeds_example : Succeeds noon (check_conditional_orders flat none noon)
check_conditional_orders-Succeeds_example =
    check_conditional_orders-Succeeds flat none noon noon-IsSolvent

sweep_open_orders_complete_example : crossed limit buy (whole 90) (whole 100) ≡ false
sweep_open_orders_complete_example =
    sweep_open_orders_complete flat (λ s. whole 100) 5 noon (λ n s. refl) noon-IsSolvent waiting
      btc_usdt (whole 90) noon_facts.1 refl noon_facts.2 refl

check_conditional_orders_complete_example :
    conditional_triggered stop_loss buy (whole 200) (whole 100) ≡ false
check_conditional_orders_complete_example =
    check_conditional_orders_complete flat (λ s. whole 100) none noon (λ n s. refl) noon-IsSolvent
      stop btc_usdt (whole 200) noon_facts.3 refl noon_facts.4 refl

place_limit-cancel_order_example : Restores noon evening another
place_limit-cancel_order_example =
    place_limit-cancel_order noon evening 5 btc_usdt buy limit (whole 1) (whole 80) another
      noon-IsSolvent noon_facts.5 refl (omega arith) (omega arith) another-Fits noon_facts.6

transfer-IsAtomic_example :
    IsAtomic noon (or_rollback noon (transfer 5 "USDT" spot funding (whole 100) noon))
transfer-IsAtomic_example = transfer-IsAtomic noon 5 "USDT" (whole 100) spot funding noon-IsSolvent
