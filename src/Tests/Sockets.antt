-- ===== src/Tests/Sockets.antt =====
-- Websockets, administrators' requests and market data at concrete inputs.
use crypto_exchange_pro.Tests.Portfolio.{no_hash}
use crypto_exchange_pro.Tests.Readings.{tables}
use crypto_exchange_pro.Tests.Store.{Store, memory, memory-IsRedis}
use crypto_exchange_pro.Tests.Accounts.{plain, auth_settings, world, ann}
use crypto_exchange_pro.Tests.Market.{least, settings, drifted}
use crypto_exchange_pro.Prelude.{
  ℕ, true, false, none, some, [], ◌∷◌, ◌≡◌, refl, All, map, take, arith,
}
use crypto_exchange_pro.Prelude.Int.{◌-ℤ◌}
use crypto_exchange_pro.Prelude.Decimal.{whole}
use crypto_exchange_pro.Models.{Notification}
use crypto_exchange_pro.Tables.Orders.{contains}
use crypto_exchange_pro.Auth.{User, UserRole, World, find_user}
use crypto_exchange_pro.Admin.Access.{
  HasAdmin, UpdateRequest, serve_updates, serve_updates-HasAdmin,
}
use crypto_exchange_pro.Websocket.{authenticate_ws, authenticate_ws_again}
use crypto_exchange_pro.Websocket.Notifications.{listed, ws_notifications}
use crypto_exchange_pro.Websocket.Announced.{announced, AreNew, ws_notifications_lem}
use crypto_exchange_pro.Websocket.Prices.{
  Frame, Round, Socket, Sent, price_round, price_rounds, add_all, add_symbol, price_rounds-closes,
}
use crypto_exchange_pro.MarketMaker.{Level}
use crypto_exchange_pro.MarketMaker.Snapshot.{Snapshot, bid_of, ask_of}
use crypto_exchange_pro.Market.Upstream.{missing, payload}
use crypto_exchange_pro.Market.Depth.{Depth, IsBest, order_book, order_book_lem}
use crypto_exchange_pro.Market.Tickers.{get_ticker, get_stats_24h}
use crypto_exchange_pro.Market.Ranges.{IsRange, get_ticker_ranges}

abbrev admin_ann : User
admin_ann = record ann { role = UserRole.admin }

abbrev office : World Store
office = record world { users = admin_ann ∷ [] }

abbrev office_request : UpdateRequest
office_request = record { credentials = some "a"; user_id = 1; role = none; is_active = some false }

office-HasAdmin : HasAdmin office.users
unfolding find_user
office-HasAdmin = (1, admin_ann, refl, refl, refl)

serve_updates-HasAdmin_example :
    HasAdmin
      (serve_updates memory plain auth_settings no_hash
        (office_request ∷ office_request ∷ [])
        office).users
serve_updates-HasAdmin_example =
    serve_updates-HasAdmin memory plain auth_settings no_hash (office_request ∷ office_request ∷ [])
      office office-HasAdmin

authenticate_ws_again_example :
    let w' = (authenticate_ws memory plain auth_settings (λ s. 1) (some "t1") none world).1 in
    (authenticate_ws memory plain auth_settings (λ s. 1) (some "t1") none w').0 ≡ none
authenticate_ws_again_example =
    authenticate_ws_again memory plain auth_settings (λ s. 1) memory-IsRedis "t1" none world refl

ws_notifications_lem_example :
    let is = announced (ws_notifications 5 (tables ∷ tables ∷ [])) in
    AreNew [] is
    × All
        (λ db. All (λ (n : Notification). contains n.id is ≡ true) (listed 5 db))
        (tables ∷ tables ∷ [])
ws_notifications_lem_example = ws_notifications_lem 5 (tables ∷ tables ∷ [])

abbrev socket : Socket
socket = record { pairs = "BTC/USDT" ∷ []; last_seen = 1000; tick = 14 }

abbrev asks_more : Round
asks_more = record {
  frame = Frame.subscribe ("ETH/USDT" ∷ "BTC/USDT" ∷ []);
  received = 2000;
  now = 30000000;
}

abbrev late_round : Round
late_round = record { frame = Frame.silent; received = 45001001; now = 45001001 }

subscribes :
    (price_round (λ s. s) asks_more socket).0
    ≡ Sent.subscribed ("BTC/USDT" ∷ "ETH/USDT" ∷ [])
      ∷ Sent.price "ETH/USDT"
      ∷ Sent.price "BTC/USDT"
      ∷ Sent.price "ETH/USDT"
      ∷ []
unfolding price_round add_all add_symbol
subscribes = refl

price_rounds-closes_example : (price_rounds (λ s. s) (asks_more ∷ late_round ∷ []) socket).1 ≡ none
price_rounds-closes_example =
    price_rounds-closes (λ s. s) (asks_more ∷ []) late_round socket (refl, (refl, tt)) (omega arith)

abbrev level : ℕ → Level
level price = record { price = whole price; qty = whole 1 }

abbrev depth : Depth
depth = record { bids = level 99 ∷ level 98 ∷ []; asks = level 101 ∷ level 102 ∷ level 103 ∷ [] }

order_book_lem_example :
    (view : Snapshot) × (order_book least settings (some (missing, payload depth)) 10 drifted 0
      ≡ some ((view, drifted), 0))
    × (map bid_of view.levels ≡ take 2 depth.bids)
    × (map ask_of view.levels ≡ take 2 depth.asks)
    × (view.spread ≡ view.best_ask -ℤ view.best_bid)
    × IsBest view view.levels
order_book_lem_example =
    order_book_lem least settings missing (payload depth) depth 10 drifted 0 refl (omega arith)
      (omega arith) (omega arith)

get_ticker_ranges_example :
    let t = get_ticker (λ s. 7) no_hash "BTC/USDT" (whole 60000) 100000 in
    let s = (get_stats_24h (λ s. 7) no_hash "BTC/USDT" (whole 60000) 100000).ticker in
    IsRange t.low_24h t.last t.high_24h
    × IsRange t.low_24h t.open_24h t.high_24h
    × IsRange s.low_24h s.last s.high_24h
    × IsRange s.low_24h s.open_24h s.high_24h
get_ticker_ranges_example =
    get_ticker_ranges (λ s. 7) no_hash "BTC/USDT" (whole 60000) 100000 (omega arith)
