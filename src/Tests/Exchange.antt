-- ===== src/Tests/Exchange.antt =====
-- The sample day, run, and the history theorems on it.
use crypto_exchange_pro.Tests.Sample.{usdt, btc, btc_usdt, feed, day}
use crypto_exchange_pro.Prelude.{ℕ, zero, suc, String, ◌≡◌, refl, some, [], ◌∷◌, map, arith, All}
use crypto_exchange_pro.Prelude.Int.{pos, ◌≤ℤ◌, neg_ℤ, ◌+ℤ◌, ◌-ℤ◌}
use crypto_exchange_pro.Prelude.Decimal.{whole, div_half_even, ◌·◌}
use crypto_exchange_pro.Models.{
  Order, OrderStatus, buy, limit, spot, funding, filled, cancelled, same_wallet,
}
use crypto_exchange_pro.Session.{Db}
use crypto_exchange_pro.Exchange.{run, seeded, registers, serve}
use crypto_exchange_pro.Tables.Wallets.{insert_missing, funds_of, write_wallet}
use crypto_exchange_pro.Tables.Orders.{find_pair, find_order, find_asset, find_symbol, write_order}
use crypto_exchange_pro.Solvency.Invariant.{IsKeyed, IsSolvent, IsNext}
use crypto_exchange_pro.Solvency.Deposits.{key_of}
use crypto_exchange_pro.Solvency.Stored.{FitsEvent}
use crypto_exchange_pro.Solvency.History.{run-seeded-IsSolvent, run-IsNext, find_order-run}
use crypto_exchange_pro.Routers.Wallets.{transfer_endpoint, deposit_endpoint}
use crypto_exchange_pro.WalletService.{
  transfer, credit, add_transaction, assign, cover, get_or_create_asset, get_or_create_wallet,
  read_funds,
}
use crypto_exchange_pro.Routers.Orders.{
  place_order_endpoint, validate_order, parse_type, parse_side, cancel_my_order,
}
use crypto_exchange_pro.Trading.Place.{
  place_order, round_to, refresh_order, then_sweep, place_limit, add_order, get_pair, place_market,
  place_on, settle_market,
}
use crypto_exchange_pro.Trading.Cancel.{cancel_order, find_own}
use crypto_exchange_pro.Market.{get_live_price}
use crypto_exchange_pro.Routers.Transaction.{commits}
use crypto_exchange_pro.Trading.Limit.{
  add_trade, create_notification, execute_limit_fill, freeze_limit, notify_order_cancelled,
  notify_order_filled, record_fill, settle_limit, unfreeze_limit,
}
use crypto_exchange_pro.Trading.Sweep.{
  check_conditional_orders, conditional_triggered, crossed, fill_each, sweep_open_orders, try_fill,
  visit,
}

abbrev morning : Db
morning = seeded (usdt ∷ btc ∷ []) (btc_usdt ∷ []) 1000

unfoldable today : Db
unfolding run
today = run feed day morning

wallets_today :
    map
      (λ k. funds_of k today.wallets)
      (key_of 5 1 spot ∷ key_of 5 1 funding ∷ key_of 5 2 spot ∷ [])
    ≡ record { balance = whole 31; available = whole 31; frozen = pos 0 }
      ∷ record { balance = whole 700; available = whole 700; frozen = pos 0 }
      ∷ record { balance = whole 3; available = whole 3; frozen = pos 0 }
      ∷ []
unfolding insert_missing today refresh_order round_to funds_of serve transfer_endpoint transfer
    find_asset place_order_endpoint validate_order parse_type parse_side place_order find_symbol
    cancel_my_order cancel_order deposit_endpoint credit seeded then_sweep place_limit run
    get_live_price same_wallet div_half_even ◌·◌ neg_ℤ ◌+ℤ◌ ◌-ℤ◌ commits find_order find_pair
    write_order write_wallet find_own add_trade create_notification execute_limit_fill freeze_limit
    notify_order_cancelled notify_order_filled record_fill settle_limit unfreeze_limit add_order
    get_pair place_market place_on settle_market check_conditional_orders conditional_triggered
    crossed fill_each sweep_open_orders try_fill visit add_transaction assign cover
    get_or_create_asset get_or_create_wallet read_funds
wallets_today = refl

statuses_today :
    map {B = ℕ × OrderStatus} (λ o. (o.id, o.status)) today.orders
    ≡ (0, filled) ∷ (1, cancelled) ∷ (3, filled) ∷ []
unfolding insert_missing today refresh_order round_to funds_of serve transfer_endpoint transfer
    find_asset place_order_endpoint validate_order parse_type parse_side place_order find_symbol
    cancel_my_order cancel_order deposit_endpoint credit seeded then_sweep place_limit run
    get_live_price same_wallet div_half_even ◌·◌ neg_ℤ ◌+ℤ◌ ◌-ℤ◌ commits find_order find_pair
    write_order write_wallet find_own add_trade create_notification execute_limit_fill freeze_limit
    notify_order_cancelled notify_order_filled record_fill settle_limit unfreeze_limit add_order
    get_pair place_market place_on settle_market check_conditional_orders conditional_triggered
    crossed fill_each sweep_open_orders try_fill visit add_transaction assign cover
    get_or_create_asset get_or_create_wallet read_funds
statuses_today = refl

pub feed-nonneg : (n : ℕ) (s : String) → pos 0 ≤ℤ feed n s
feed-nonneg zero s = omega arith
feed-nonneg (suc zero) s = omega arith
feed-nonneg (suc (suc n)) s = omega arith

pub catalogue-IsKeyed : IsKeyed (btc_usdt ∷ [])
unfolding find_pair
catalogue-IsKeyed = (refl, tt)

day-Fits : All FitsEvent day
unfolding parse_type round_to ◌·◌ div_half_even
day-Fits = (
  tt,
  (
    λ type parsed kind. (refl, refl, refl),
    (
      λ type parsed kind. (refl, refl, refl),
      (
        λ type parsed kind. (refl, refl, refl),
        (tt, (λ type parsed kind. (refl, refl, refl), (tt, tt))),
      ),
    ),
  ),
)

run-seeded-IsSolvent_example : IsSolvent (run feed day morning)
run-seeded-IsSolvent_example =
    run-seeded-IsSolvent feed day (usdt ∷ btc ∷ []) (btc_usdt ∷ []) 1000 feed-nonneg day-Fits
      catalogue-IsKeyed

today-IsSolvent : IsSolvent today
unfolding today
today-IsSolvent =
    run-seeded-IsSolvent feed day (usdt ∷ btc ∷ []) (btc_usdt ∷ []) 1000 feed-nonneg day-Fits
      catalogue-IsKeyed

run-IsNext_example : IsNext today (run feed (registers "USDT" (whole 1000) ∷ day) today)
run-IsNext_example =
    run-IsNext feed (registers "USDT" (whole 1000) ∷ day) today feed-nonneg (tt, day-Fits)
      today-IsSolvent

abbrev first_order : Order
first_order = record {
  id = 0;
  user_id = 5;
  pair_id = 7;
  side = buy;
  type = limit;
  price = some (whole 90);
  qty = whole 2;
  filled_qty = whole 2;
  avg_fill_price = some (whole 90);
  status = filled;
  created_at = 1000;
}

filled_first : find_order 0 today.orders ≡ some first_order
unfolding insert_missing today refresh_order round_to funds_of serve transfer_endpoint transfer
    find_asset place_order_endpoint validate_order parse_type parse_side place_order find_symbol
    cancel_my_order cancel_order deposit_endpoint credit seeded then_sweep place_limit run
    get_live_price same_wallet div_half_even ◌·◌ neg_ℤ ◌+ℤ◌ ◌-ℤ◌ commits find_order find_pair
    write_order write_wallet find_own add_trade create_notification execute_limit_fill freeze_limit
    notify_order_cancelled notify_order_filled record_fill settle_limit unfreeze_limit add_order
    get_pair place_market place_on settle_market check_conditional_orders conditional_triggered
    crossed fill_each sweep_open_orders try_fill visit add_transaction assign cover
    get_or_create_asset get_or_create_wallet read_funds
filled_first = refl

find_order-run_example : find_order 0 (run feed day today).orders ≡ some first_order
find_order-run_example =
    find_order-run feed day today 0 first_order today-IsSolvent.fresh filled_first refl
