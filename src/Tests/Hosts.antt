-- ===== src/Tests/Hosts.antt =====
-- A price from the second host of Binance.
use text.Mathlib.Text.{◌==◌ as str_eq}
use crypto_exchange_pro.Prelude.{String, Option, none, some, ◌≡◌, refl, if◌then◌else◌}
use crypto_exchange_pro.Prelude.Decimal.{Decimal, whole}
use crypto_exchange_pro.Market.Hosts.{
  Json, Members, Hosts, base_urls, request_from, request, member_of, fetch_price, fetch_klines,
}

-- The first host is out of reach.
abbrev second_host : Hosts
second_host base r =
    if str_eq base "https://api.binance.com"
    then none
    else some (Json.object (Members.member "price" (Json.string "97") Members.no_members))

abbrev reads_97 : String → Option Decimal
reads_97 s = if str_eq s "97" then some (whole 97) else none

price_of_second : fetch_price second_host reads_97 "BTCUSDT" ≡ some (whole 97)
unfolding fetch_price request request_from base_urls member_of
price_of_second = refl

-- An object is no list of candles.
no_klines : fetch_klines second_host "BTCUSDT" "1m" 120 ≡ none
unfolding fetch_klines request request_from base_urls
no_klines = refl
