-- ===== src/Admin.antt =====
-- Administration (backend/app/services/admin.py, lines 25 to 189): the list of users, one user's detail, and
-- the change of a user's role or activity. `ilike search text` stands for the database's
-- `text ILIKE '%search%'`. The simulated prices are those of the present. `updated_at` is left out.
pub mod Lists
pub mod Stats
pub mod Accounts
pub mod Access
pub mod Consistency
use crypto_exchange_pro.Prelude.{
  if_given, ℕ, String, Bool, true, false, Option, none, some, List, [], ◌∷◌, ◌/◌, ◌&&◌, ◌||◌, ◌==◌,
  not, is_some, if◌then◌else◌, select, sort, map, page, length,
}
use text.Mathlib.Text.{◌==◌ as str_eq}
use crypto_exchange_pro.Prelude.Int.{pos}
use crypto_exchange_pro.Prelude.Decimal.{Decimal}
use crypto_exchange_pro.Models.{Asset, Wallet, WalletType, spot, funding, Order, Trade}
use crypto_exchange_pro.Session.{Db}
use crypto_exchange_pro.Market.Simulated.{price_at}
use crypto_exchange_pro.WalletService.Listing.{BalanceItem, items_of}
use crypto_exchange_pro.Portfolio.{QuoteCache, quote_cache, is_spot_of}
use crypto_exchange_pro.Portfolio.History.{holdings, usd_value}
use crypto_exchange_pro.Auth.{User, UserRole, find_user}

-- `_current_price`, at the session's clock.
abbrev pub current_price : (String → ℕ → ℕ) → Db → String → Decimal
current_price hash db pair_symbol = price_at hash pair_symbol (db.now / 1000000)

unfoldable pub wallets_total_usd : (String → ℕ → ℕ) → List Wallet → Db → Decimal
wallets_total_usd hash wallets db =
    usd_value (quote_cache db.assets db.pairs) (current_price hash db) (holdings db.assets wallets)
      (pos 0)

-- `if search:`, which an empty text does not pass.
abbrev pub is_searched : (String → String → Bool) → Option String → User → Bool
is_searched ilike search u = if_given search (λ s. ilike s u.email || ilike s u.username)

pub record UserItem : Type 0 where
  pub id : ℕ
  pub email : String
  pub username : String
  pub role : UserRole
  pub is_active : Bool
  pub created_at : ℕ
  pub total_usd : Decimal
  pub order_count : ℕ
  pub trade_count : ℕ

pub record UserList : Type 0 where
  pub total : ℕ
  pub users : List UserItem

abbrev pub order_count : ℕ → Db → ℕ
order_count user_id db = length (select (λ (o : Order). o.user_id == user_id) db.orders)

abbrev pub trade_count : ℕ → Db → ℕ
trade_count user_id db = length (select (λ (t : Trade). t.user_id == user_id) db.trades)

abbrev pub user_item : (String → ℕ → ℕ) → Db → User → UserItem
user_item hash db u = record {
  id = u.id;
  email = u.email;
  username = u.username;
  role = u.role;
  is_active = u.is_active;
  created_at = u.created_at;
  total_usd = wallets_total_usd hash (select (is_spot_of u.id) db.wallets) db;
  order_count = order_count u.id db;
  trade_count = trade_count u.id db;
}

unfoldable pub list_users :
    (String → String → Bool) → (String → ℕ → ℕ) → Option String → ℕ → ℕ → List User → Db → UserList
list_users ilike hash search limit offset users db =
    let found = select (is_searched ilike search) users in
    record { total = length found; users = map (user_item hash db) (page limit offset found) }

pub record UserDetail : Type 0 where
  pub item : UserItem
  pub wallets : List BalanceItem

-- The order of the enumeration's members.
abbrev pub type_before : WalletType → WalletType → Bool
type_before spot funding = true
type_before _ _ = false

abbrev pub detail_of : (String → ℕ → ℕ) → Db → Option User → Option UserDetail
detail_of hash db none = none
detail_of hash db (some u) = some (record {
  item = user_item hash db u;
  wallets =
      sort (λ (a b : BalanceItem). type_before a.wallet_type b.wallet_type)
        (items_of u.id db.assets db.wallets);
})

unfoldable pub get_user_detail : (String → ℕ → ℕ) → ℕ → List User → Db → Option UserDetail
get_user_detail hash user_id users db = detail_of hash db (find_user user_id users)

-- The `HTTPException`s of `update_user`, with 404 and 400.
pub data AdminError : Type 0 where
  user_not_found own_account : AdminError

pub data Outcome (A : Type 0) : Type 0 where
  done : A → Outcome A
  refused : AdminError → Outcome A

-- An assignment to the columns of a user's row.
unfoldable pub write_user : ℕ → (User → User) → List User → List User
write_user i f [] = []
write_user i f (u ∷ us) = if u.id == i then f u ∷ us else u ∷ write_user i f us

abbrev pub given_or {ℓ} : {A : Type ℓ} → Option A → A → A
given_or none old = old
given_or (some new) old = new

abbrev pub change : Option UserRole → Option Bool → User → User
change role is_active u = record u {
  role = given_or role u.role;
  is_active = given_or is_active u.is_active;
}

abbrev pub is_block : Option Bool → Bool
is_block none = false
is_block (some b) = not b

abbrev pub update_found :
    User → Option UserRole → Option Bool → Option User → List User → Outcome User × List User
update_found actor role is_active none users = (refused AdminError.user_not_found, users)
update_found actor role is_active (some target) users =
    if target.id == actor.id && (is_some role || is_block is_active)
    then (refused AdminError.own_account, users)
    else (done (change role is_active target), write_user target.id (change role is_active) users)

unfoldable pub update_user :
    User → ℕ → Option UserRole → Option Bool → List User → Outcome User × List User
update_user actor target_id role is_active users =
    update_found actor role is_active (find_user target_id users) users
