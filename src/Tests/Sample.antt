-- ===== src/Tests/Sample.antt =====
-- A catalogue with one pair, and a day on it.
use crypto_exchange_pro.Prelude.{ℕ, zero, suc, true, false, some, List, [], ◌∷◌, String}
use crypto_exchange_pro.Prelude.Int.{pos}
use crypto_exchange_pro.Prelude.Decimal.{whole}
use crypto_exchange_pro.Models.{Asset, TradingPair, active, spot, funding}
use crypto_exchange_pro.Market.{Feed}
use crypto_exchange_pro.Routers.Orders.{PlaceOrderRequest}
use crypto_exchange_pro.Exchange.{Event, places, cancels, deposits, transfers}

abbrev pub usdt : Asset
usdt = record {
  id = 1;
  symbol = "USDT";
  name = "Tether";
  decimals = 6;
  is_fiat = false;
  is_active = true;
}

abbrev pub btc : Asset
btc = record {
  id = 2;
  symbol = "BTC";
  name = "Bitcoin";
  decimals = 8;
  is_fiat = false;
  is_active = true;
}

abbrev pub btc_usdt : TradingPair
btc_usdt = record {
  id = 7;
  base_asset_id = 2;
  quote_asset_id = 1;
  symbol = "BTC/USDT";
  price_precision = 2;
  qty_precision = 6;
  min_qty = pos 0;
  status = active;
  is_active = true;
}

-- 100.00, then 89.00.
abbrev pub feed : Feed
feed zero symbol = whole 100
feed (suc zero) symbol = whole 100
feed (suc (suc n)) symbol = whole 89

abbrev pub order : String → String → ℕ → ℕ → PlaceOrderRequest
order side type qty price = record {
  pair = "BTC/USDT";
  side = side;
  qty = whole qty;
  type = type;
  price = some (whole price);
}

-- A deposit; two resting purchases, and a sale that is refused; the second order is cancelled; a
-- market order at 89.00, after which the sweep fills the first order at its 90.00; a transfer.
abbrev pub day : List Event
day =
    deposits 5 "USDT" (whole 1000)
    ∷ places 5 (order "buy" "limit" 2 90)
    ∷ places 5 (order "sell" "limit" 1 120)
    ∷ places 5 (order "buy" "limit" 1 50)
    ∷ cancels 5 1
    ∷ places 5 (order "buy" "market" 1 1)
    ∷ transfers 5 "USDT" spot funding (whole 700)
    ∷ []
