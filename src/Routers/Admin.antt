-- ===== src/Routers/Admin.antt =====
-- backend/app/routers/admin.py: the endpoints of administration, for an administrator's token alone. The
-- token is checked first, then the parameters.
use Prim.Native.String.{count as text_length}
use text.Mathlib.Text.{◌==◌ as str_eq}
use crypto_exchange_pro.Prelude.{
  ℕ, String, Bool, Option, none, some, List, [], ◌∷◌, ◌&&◌, leb, given, if◌then◌else◌,
}
use crypto_exchange_pro.Models.{OrderStatus, open_, filled, partially_filled, cancelled, rejected}
use crypto_exchange_pro.Redis.{Commands}
use crypto_exchange_pro.Auth.{
  User, UserRole, Crypto, AuthSettings, AuthError, Answer, yes, no, World,
}
use crypto_exchange_pro.Auth.Tokens.{require_roles}
use crypto_exchange_pro.Routers.Orders.{parse_side, parse_type}
use crypto_exchange_pro.Admin.{
  AdminError, Outcome, done, refused, UserList, UserDetail, list_users, get_user_detail,
  update_user,
}
use crypto_exchange_pro.Admin.Lists.{
  Listed, AdminOrderItem, AdminTradeItem, list_all_orders, list_all_trades,
}
use crypto_exchange_pro.Admin.Stats.{AdminStats, get_admin_stats}

-- A response; the answers 401 and 403 of the token's check; those of the service; 422 for a parameter;
-- and 500.
pub data AdminAnswer (A : Type 0) : Type 0 where
  gives : A → AdminAnswer A
  denies : AuthError → AdminAnswer A
  refuses : AdminError → AdminAnswer A
  rejects crashes : AdminAnswer A

unfoldable pub parse_any_status : String → Option OrderStatus
parse_any_status s =
    if str_eq s "open"
    then some open_
    else if str_eq s "filled"
    then some filled
    else if str_eq s "partially_filled"
    then some partially_filled
    else if str_eq s "cancelled"
    then some cancelled
    else if str_eq s "rejected"
    then some rejected
    else none

-- A query parameter that is not given, or is one of the literals.
abbrev pub literal :
    {A B : Type 0}
    → (String → Option A)
    → Option String
    → (Option A → AdminAnswer B)
    → AdminAnswer B
literal parse none f = f none
literal parse (some s) f = elim (parse s) [ none ↦ AdminAnswer.rejects | some a ↦ f (some a) ]

abbrev pub is_page : ℕ → Bool
is_page n = leb 1 n && leb n 200

-- `Query(None, max_length=100)`.
abbrev pub is_short : Option String → Bool
is_short text = given text (λ s. leb (text_length s) 100)

abbrev pub checked : {A : Type 0} → Bool → AdminAnswer A → AdminAnswer A
checked valid answer = if valid then answer else AdminAnswer.rejects

abbrev pub for_admin : {A : Type 0} → Answer User → (User → AdminAnswer A) → AdminAnswer A
for_admin (no e) f = AdminAnswer.denies e
for_admin (yes u) f = f u

abbrev pub or_not_found : Option UserDetail → AdminAnswer UserDetail
or_not_found none = AdminAnswer.refuses AdminError.user_not_found
or_not_found (some d) = AdminAnswer.gives d

abbrev pub or_crash : Option UserDetail → AdminAnswer UserDetail
or_crash none = AdminAnswer.crashes
or_crash (some d) = AdminAnswer.gives d

pub record AdminListQuery : Type 0 where
  pub user : Option String
  pub pair : Option String
  pub status : Option String
  pub side : Option String
  pub type : Option String
  pub from_time : Option ℕ
  pub to : Option ℕ
  pub limit : ℕ
  pub offset : ℕ

module _ {S : Type 0} (redis : Commands S) (crypto : Crypto) (settings : AuthSettings) where
  abbrev pub require_admin : Option String → World S → Answer User
  require_admin = require_roles redis crypto settings (UserRole.admin ∷ [])

  module _ (hash : String → ℕ → ℕ) where
    unfoldable pub get_user : Option String → ℕ → World S → AdminAnswer UserDetail
    get_user credentials user_id w =
        for_admin (require_admin credentials w)
          (λ actor. or_not_found (get_user_detail hash user_id w.users w.db))

    -- The commit, and the user's detail as it is then.
    abbrev pub commit_update : Outcome User × List User → World S → AdminAnswer UserDetail × World S
    commit_update (refused e, users) w = (AdminAnswer.refuses e, w)
    commit_update (done target, users) w =
        let w' = record w { users = users } in
        (or_crash (get_user_detail hash target.id w'.users w'.db), w')

    abbrev pub update_as :
        Answer User → ℕ → Option UserRole → Option Bool → World S → AdminAnswer UserDetail × World S
    update_as (no e) user_id role is_active w = (AdminAnswer.denies e, w)
    update_as (yes actor) user_id role is_active w =
        commit_update (update_user actor user_id role is_active w.users) w

    unfoldable pub update_user_endpoint :
        Option String
        → ℕ
        → Option UserRole
        → Option Bool
        → World S
        → AdminAnswer UserDetail × World S
    update_user_endpoint credentials user_id role is_active w =
        update_as (require_admin credentials w) user_id role is_active w

    unfoldable pub admin_stats : Option String → ℕ → World S → AdminAnswer AdminStats
    admin_stats credentials days w = for_admin (require_admin credentials w) (λ actor.
        checked (leb 1 days && leb days 90)
          (AdminAnswer.gives (get_admin_stats hash days w.users w.db)))

    module _ (ilike : String → String → Bool) where
      unfoldable pub list_users_endpoint :
          Option String → Option String → ℕ → ℕ → World S → AdminAnswer UserList
      list_users_endpoint credentials search limit offset w =
          for_admin (require_admin credentials w) (λ actor.
            checked (is_short search && is_page limit)
              (AdminAnswer.gives (list_users ilike hash search limit offset w.users w.db)))

      unfoldable pub list_all_orders_endpoint :
          Option String → AdminListQuery → World S → AdminAnswer (Listed AdminOrderItem)
      list_all_orders_endpoint credentials q w = for_admin (require_admin credentials w) (λ actor.
          literal parse_any_status q.status (λ status. literal parse_side q.side (λ side.
            literal parse_type q.type (λ type. checked (is_short q.user && is_page q.limit) (
              AdminAnswer.gives (
                list_all_orders ilike
                  (record {
                    user = q.user;
                    pair_symbol = q.pair;
                    status = status;
                    side = side;
                    order_type = type;
                    date_from = q.from_time;
                    date_to = q.to;
                  })
                  q.limit q.offset w.users w.db))))))

      unfoldable pub list_all_trades_endpoint :
          Option String → AdminListQuery → World S → AdminAnswer (Listed AdminTradeItem)
      list_all_trades_endpoint credentials q w = for_admin (require_admin credentials w) (λ actor.
          literal parse_side q.side (λ side. checked (is_short q.user && is_page q.limit) (
            AdminAnswer.gives (
              list_all_trades ilike
                (record {
                  user = q.user;
                  pair_symbol = q.pair;
                  side = side;
                  date_from = q.from_time;
                  date_to = q.to;
                })
                q.limit q.offset w.users w.db))))
