-- ===== src/Catalogue.antt =====
-- The catalogue of assets and pairs that the application adds when it starts (backend/app/core/seed.py).
pub mod Seeding
pub mod Growth
pub mod Restart
use Prim.Native.String.{◌++◌ as str_append}
use text.Mathlib.Text.{◌==◌ as str_eq}
use crypto_exchange_pro.Prelude.{
  ℕ, String, Bool, true, false, Option, none, some, List, [], ◌∷◌, ◌++◌, ◌+◌, if◌then◌else◌,
}
use crypto_exchange_pro.Prelude.Int.{pos}
use crypto_exchange_pro.Models.{Asset, TradingPair, active}
use crypto_exchange_pro.Session.{Db}
use crypto_exchange_pro.Tables.Orders.{find_asset, find_symbol}

pub record AssetSpec : Type 0 where
  pub symbol : String
  pub name : String
  pub decimals : ℕ
  pub is_fiat : Bool

pub record PairSpec : Type 0 where
  pub base : String
  pub quote : String
  pub price_precision : ℕ
  pub qty_precision : ℕ

-- `ASSETS`.
abbrev pub listed_assets : List AssetSpec
listed_assets =
    record { symbol = "USD"; name = "US Dollar"; decimals = 2; is_fiat = true }
    ∷ record { symbol = "USDT"; name = "Tether"; decimals = 6; is_fiat = false }
    ∷ record { symbol = "BTC"; name = "Bitcoin"; decimals = 8; is_fiat = false }
    ∷ record { symbol = "ETH"; name = "Ethereum"; decimals = 8; is_fiat = false }
    ∷ []

-- `PAIRS`.
abbrev pub listed_pairs : List PairSpec
listed_pairs =
    record { base = "BTC"; quote = "USDT"; price_precision = 2; qty_precision = 6 }
    ∷ record { base = "ETH"; quote = "USDT"; price_precision = 2; qty_precision = 4 }
    ∷ record { base = "BTC"; quote = "USD"; price_precision = 2; qty_precision = 6 }
    ∷ record { base = "ETH"; quote = "USD"; price_precision = 2; qty_precision = 4 }
    ∷ []

-- `asset_ids`.
abbrev pub AssetIds : Type 0
AssetIds = List (String × ℕ)

unfoldable pub id_of : String → AssetIds → Option ℕ
id_of symbol [] = none
id_of symbol (e ∷ es) = if str_eq e.0 symbol then some e.1 else id_of symbol es

abbrev pub seed_asset : AssetSpec → Option Asset → AssetIds × Db → AssetIds × Db
seed_asset a (some asset) (ids, db) = ((a.symbol, asset.id) ∷ ids, db)
seed_asset a none (ids, db) = (
  (a.symbol, db.next_id) ∷ ids,
  record db {
    assets =
        db.assets
        ++ record {
          id = db.next_id;
          symbol = a.symbol;
          name = a.name;
          decimals = a.decimals;
          is_fiat = a.is_fiat;
          is_active = true;
        }
          ∷ [];
    next_id = db.next_id + 1;
  },
)

unfoldable pub seed_assets : List AssetSpec → AssetIds × Db → AssetIds × Db
seed_assets [] s = s
seed_assets (a ∷ specs) s = seed_assets specs (seed_asset a (find_asset a.symbol s.1.assets) s)

abbrev pub pair_symbol : PairSpec → String
pair_symbol p = str_append p.base (str_append "/" p.quote)

abbrev pub new_pair : PairSpec → ℕ → ℕ → ℕ → TradingPair
new_pair p id base_id quote_id = record {
  id = id;
  base_asset_id = base_id;
  quote_asset_id = quote_id;
  symbol = pair_symbol p;
  price_precision = p.price_precision;
  qty_precision = p.qty_precision;
  min_qty = pos 0;
  status = active;
  is_active = true;
}

-- A symbol without an id raises.
abbrev pub add_pair : PairSpec → Option ℕ → Option ℕ → Db → Option Db
add_pair p none quote_id db = none
add_pair p (some base_id) none db = none
add_pair p (some base_id) (some quote_id) db = some (record db {
  pairs = db.pairs ++ new_pair p db.next_id base_id quote_id ∷ [];
  next_id = db.next_id + 1;
})

abbrev pub seed_pair : PairSpec → AssetIds → Option TradingPair → Db → Option Db
seed_pair p ids (some pair) db = some db
seed_pair p ids none db = add_pair p (id_of p.base ids) (id_of p.quote ids) db

abbrev pub then_db : Option Db → (Db → Option Db) → Option Db
then_db none f = none
then_db (some db) f = f db

unfoldable pub seed_pairs : List PairSpec → AssetIds → Db → Option Db
seed_pairs [] ids db = some db
seed_pairs (p ∷ specs) ids db =
    then_db (seed_pair p ids (find_symbol (pair_symbol p) db.pairs) db) (seed_pairs specs ids)

unfoldable pub seed_catalog : Db → Option Db
seed_catalog db =
    let (ids, db') = seed_assets listed_assets ([], db) in seed_pairs listed_pairs ids db'
