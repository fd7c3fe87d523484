-- ===== src/Catalogue/Seeding.antt =====
-- What seeding the catalogue leaves (backend/app/core/seed.py, lines 26 to 62).
use crypto_exchange_pro.Prelude.{
  str_eq_refl, ℕ, String, true, Option, none, some, List, [], ◌∷◌, ◌++◌, ◌≡◌, refl, is_some, All,
  arith, Option-cases, inl, inr,
}
use crypto_exchange_pro.Models.{Asset, TradingPair}
use crypto_exchange_pro.Session.{Db}
use crypto_exchange_pro.Tables.Orders.{find_asset, find_symbol}
use crypto_exchange_pro.Catalogue.{AssetSpec, AssetIds, id_of, seed_asset, seed_assets}

find_asset-append :
    (s : String) (xs : List Asset) (a : Asset)
    → is_some (find_asset s xs) ≡ true
    → is_some (find_asset s (xs ++ a ∷ [])) ≡ true
unfolding find_asset
find_asset-append s [] a h = cc
find_asset-append s (x ∷ xs) a h = ground (arith, find_asset-append s xs a)

find_asset-added :
    (xs : List Asset) (a : Asset) → is_some (find_asset a.symbol (xs ++ a ∷ [])) ≡ true
unfolding find_asset
find_asset-added [] a = rw (str_eq_refl a.symbol) refl
find_asset-added (x ∷ xs) a = ground (arith, find_asset-added xs a)

pub find_symbol-append :
    (s : String) (ps : List TradingPair) (p : TradingPair)
    → is_some (find_symbol s ps) ≡ true
    → is_some (find_symbol s (ps ++ p ∷ [])) ≡ true
unfolding find_symbol
find_symbol-append s [] p h = cc
find_symbol-append s (x ∷ ps) p h = ground (arith, find_symbol-append s ps p)

pub find_symbol-added :
    (ps : List TradingPair) (p : TradingPair) → is_some (find_symbol p.symbol (ps ++ p ∷ [])) ≡ true
unfolding find_symbol
find_symbol-added [] p = rw (str_eq_refl p.symbol) refl
find_symbol-added (x ∷ ps) p = ground (arith, find_symbol-added ps p)

-- The asset is in the table, and its id in the dictionary.
abbrev pub HasAsset : String → AssetIds × Db → Type 0
HasAsset s (ids, db) = (is_some (find_asset s db.assets) ≡ true) × (is_some (id_of s ids) ≡ true)

abbrev pub InTable : String → Db → Type 0
InTable s db = is_some (find_asset s db.assets) ≡ true

id_of-cons :
    (s t : String) (i : ℕ) (ids : AssetIds)
    → is_some (id_of s ids) ≡ true
    → is_some (id_of s ((t, i) ∷ ids)) ≡ true
unfolding id_of
id_of-cons s t i ids h = ground (arith, h)

id_of-first : (s : String) (i : ℕ) (ids : AssetIds) → is_some (id_of s ((s, i) ∷ ids)) ≡ true
unfolding id_of
id_of-first s i ids = rw (str_eq_refl s) refl

seed_asset-keeps :
    (a : AssetSpec) (found : Option Asset) (t : String) (s : AssetIds × Db)
    → HasAsset t s
    → HasAsset t (seed_asset a found s)
seed_asset-keeps a (some asset) t s h = (h.0, id_of-cons t a.symbol asset.id s.0 h.1)
seed_asset-keeps a none t s h =
    (find_asset-append t s.1.assets _ h.0, id_of-cons t a.symbol s.1.next_id s.0 h.1)

seed_assets-keeps :
    (specs : List AssetSpec) (t : String) (s : AssetIds × Db)
    → HasAsset t s
    → HasAsset t (seed_assets specs s)
unfolding seed_assets
seed_assets-keeps [] t s h = h
seed_assets-keeps (a ∷ specs) t s h =
    seed_assets-keeps specs t _ (seed_asset-keeps a (find_asset a.symbol s.1.assets) t s h)

seed_asset-adds :
    (a : AssetSpec) (s : AssetIds × Db)
    → HasAsset a.symbol (seed_asset a (find_asset a.symbol s.1.assets) s)
seed_asset-adds a s = elim (Option-cases (find_asset a.symbol s.1.assets)) [
  | inl e ↦ rw e (find_asset-added s.1.assets _, id_of-first a.symbol s.1.next_id s.0)
  | inr (x, e) ↦ rw e (rw e refl, id_of-first a.symbol x.id s.0)
]

pub seed_assets-adds :
    (specs : List AssetSpec) (s : AssetIds × Db)
    → All (λ (a : AssetSpec). HasAsset a.symbol (seed_assets specs s)) specs
unfolding seed_assets
seed_assets-adds [] s = tt
seed_assets-adds (a ∷ specs) s = (
  seed_assets-keeps specs a.symbol _ (seed_asset-adds a s),
  seed_assets-adds specs (seed_asset a (find_asset a.symbol s.1.assets) s),
)
