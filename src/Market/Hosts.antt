-- ===== src/Market/Hosts.antt =====
-- backend/app/services/binance_client.py: a request goes to one host of Binance after the other until one
-- answers, and the answer's shape is looked at. What a host answers is a parameter.
use crypto_exchange_pro.Prelude.{ℕ, String, Bool, Option, none, some, List, [], ◌∷◌, if◌then◌else◌}
use text.Mathlib.Text.{◌==◌ as str_eq}
use crypto_exchange_pro.Prelude.Decimal.{Decimal, whole}

-- JSON, in which a number is kept as its text.
mutual
  pub data Json : Type 0 where
    null : Json
    boolean : Bool → Json
    number string : String → Json
    list : Items → Json
    object : Members → Json

  pub data Items : Type 0 where
    no_items : Items
    item : Json → Items → Items

  pub data Members : Type 0 where
    no_members : Members
    member : String → Json → Members → Members

pub data Param : Type 0 where
  str : String → Param
  int : ℕ → Param

pub record Request : Type 0 where
  pub path : String
  pub params : List (String × Param)

-- What a host answers: none is an exception, from the network, the status or the JSON.
abbrev pub Hosts : Type 0
Hosts = String → Request → Option Json

unfoldable pub base_urls : List String
base_urls = "https://api.binance.com" ∷ "https://data-api.binance.vision" ∷ []

abbrev pub answer_or : Option Json → Json → Json
answer_or (some found) later = found
answer_or none later = later

-- The loop over the hosts. Python's None is what a host's `null` reads as, too.
unfoldable pub request_from : Hosts → Request → List String → Json
request_from hosts r [] = Json.null
request_from hosts r (base ∷ bases) = answer_or (hosts base r) (request_from hosts r bases)

unfoldable pub request : Hosts → Request → Json
request hosts r = request_from hosts r base_urls

-- The member of an object, the last of its name.
unfoldable pub member_of : String → Members → Option Json
member_of key Members.no_members = none
member_of key (Members.member name value rest) = last_or (member_of key rest)
  where
    last_or : Option Json → Option Json
    last_or (some later) = some later
    last_or none = if str_eq name key then some value else none

-- `float` of a value, from what it reads in a text; none is a TypeError or a ValueError.
abbrev pub float_of : (String → Option Decimal) → Option Json → Option Decimal
float_of reads (some (Json.number s)) = reads s
float_of reads (some (Json.string s)) = reads s
float_of reads (some (Json.boolean b)) = some (if b then whole 1 else whole 0)
float_of reads _ = none

-- `data["price"]`: data that is no object has no such member.
abbrev pub price_member : Json → Option Json
price_member (Json.object members) = member_of "price" members
price_member _ = none

unfoldable pub fetch_price : Hosts → (String → Option Decimal) → String → Option Decimal
fetch_price hosts reads symbol = float_of reads (
    price_member (
      request hosts
        (record { path = "/api/v3/ticker/price"; params = ("symbol", Param.str symbol) ∷ [] })))

-- `isinstance(data, dict)` and `isinstance(data, list)`.
abbrev pub as_object : Json → Option Members
as_object (Json.object members) = some members
as_object _ = none

abbrev pub as_list : Json → Option Items
as_list (Json.list items) = some items
as_list _ = none

unfoldable pub fetch_24hr : Hosts → String → Option Members
fetch_24hr hosts symbol = as_object (
    request hosts
      (record { path = "/api/v3/ticker/24hr"; params = ("symbol", Param.str symbol) ∷ [] }))

unfoldable pub fetch_klines : Hosts → String → String → ℕ → Option Items
fetch_klines hosts symbol interval limit = as_list (
    request hosts (record {
      path = "/api/v3/klines";
      params =
          ("symbol", Param.str symbol)
          ∷ ("interval", Param.str interval)
          ∷ ("limit", Param.int limit)
          ∷ [];
    }))

unfoldable pub fetch_depth : Hosts → String → ℕ → Option Members
fetch_depth hosts symbol limit = as_object (
    request hosts (record {
      path = "/api/v3/depth";
      params = ("symbol", Param.str symbol) ∷ ("limit", Param.int limit) ∷ [];
    }))

unfoldable pub fetch_recent_trades : Hosts → String → ℕ → Option Items
fetch_recent_trades hosts symbol limit = as_list (
    request hosts (record {
      path = "/api/v3/trades";
      params = ("symbol", Param.str symbol) ∷ ("limit", Param.int limit) ∷ [];
    }))
