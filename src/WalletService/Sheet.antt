-- ===== src/WalletService/Sheet.antt =====
-- The balance sheet (backend/app/services/wallet.py, lines 238 to 255).
use crypto_exchange_pro.Prelude.{
  ℕ, ◌≡◌, refl, ◌∙◌, Bool, true, false, String, List, [], ◌∷◌, ◌==◌, arith, select, length,
  length-sort, sort-IsSorted, IsSorted, is_some, ◌&&◌,
}
use crypto_exchange_pro.Models.{Asset, Wallet}
use crypto_exchange_pro.Session.{Db, ok}
use crypto_exchange_pro.WalletService.Listing.{BalanceItem, get_balances, items_of, asset_of}

-- The wallets on the sheet.
abbrev pub is_on_sheet : ℕ → List Asset → Wallet → Bool
is_on_sheet user_id assets w = w.key.user_id == user_id && is_some (asset_of w.key.asset_id assets)

count_items :
    (user_id : ℕ) (assets : List Asset) (ws : List Wallet)
    → length (items_of user_id assets ws) ≡ length (select (is_on_sheet user_id assets) ws)
unfolding items_of
count_items user_id assets [] = refl
count_items user_id assets (w ∷ ws) = ground (arith, count_items user_id assets ws)

-- For a collation that is a strict weak order, the balance sheet is sorted by symbol and has as
-- many lines as the user has wallets of known assets.
pub get_balances_lem :
    (precedes : String → String → Bool) (user_id : ℕ) (db : Db)
    → ((x y : String) → precedes x y ≡ true → precedes y x ≡ false)
    → ((x y z : String) → precedes y x ≡ false → precedes z y ≡ false → precedes z x ≡ false)
    → (items : List BalanceItem) × ((get_balances precedes user_id db).0 ≡ ok items)
      × IsSorted (λ a b. precedes a.asset_symbol b.asset_symbol) items
      × (length items ≡ length (select (is_on_sheet user_id db.assets) db.wallets))
unfolding get_balances
get_balances_lem precedes user_id db asymmetric transitive =
    let before = λ (a b : BalanceItem). precedes a.asset_symbol b.asset_symbol in
    let rows = items_of user_id db.assets db.wallets in
    (
      _,
      refl,
      sort-IsSorted before (λ x y. asymmetric x.asset_symbol y.asset_symbol)
          (λ x y z. transitive x.asset_symbol y.asset_symbol z.asset_symbol) rows,
      length-sort before rows ∙ count_items user_id db.assets db.wallets,
    )
