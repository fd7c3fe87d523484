-- ===== src/Auth.antt =====
-- Accounts and tokens: backend/app/core/security.py, backend/app/dependencies/auth.py and
-- backend/app/routers/auth.py. The password hash, the signature of tokens and the fresh token
-- numbers are parameters; the audit log is left out.
pub mod Schemas
pub mod Tokens
pub mod Endpoints
pub mod Login
pub mod Tickets
use crypto_exchange_pro.Prelude.{
  ℕ, String, Bool, true, false, Option, none, some, List, [], ◌∷◌, ◌++◌, ◌+◌, ◌-◌, ◌*◌, ◌||◌, ◌&&◌,
  ◌==◌, ltb, not, is_some, if◌then◌else◌, select,
}
use text.Mathlib.Text.{◌==◌ as str_eq}
use crypto_exchange_pro.Prelude.Int.{pos, ltb_ℤ}
use crypto_exchange_pro.Prelude.Decimal.{Decimal}
use crypto_exchange_pro.Models.{TransactionType}
use crypto_exchange_pro.Session.{Db}
use crypto_exchange_pro.WalletService.{credit}
use crypto_exchange_pro.Redis.{Key, Commands}
use crypto_exchange_pro.RateLimit.{is_account_locked, record_failed_login, reset_failed_logins}

pub data UserRole : Type 0 where
  user trader manager admin : UserRole

pub record User : Type 0 where
  pub id : ℕ
  pub email : String
  pub username : String
  pub hashed_password : String
  pub role : UserRole
  pub is_active : Bool
  pub created_at : ℕ

abbrev pub role_eq : UserRole → UserRole → Bool
role_eq user user = true
role_eq trader trader = true
role_eq manager manager = true
role_eq admin admin = true
role_eq _ _ = false

pub data TokenType : Type 0 where
  access refresh_ : TokenType

abbrev pub token_type_eq : TokenType → TokenType → Bool
token_type_eq access access = true
token_type_eq refresh_ refresh_ = true
token_type_eq _ _ = false

pub record Payload : Type 0 where
  pub sub : ℕ
  pub exp : ℕ
  pub iat : ℕ
  pub jti : String
  pub type : TokenType

-- passlib, `jwt` and `uuid4`; `decode` is none for a bad signature or an expired token.
pub record Crypto : Type 0 where
  pub hash : String → String
  pub verify : String → String → Bool
  pub encode : Payload → String
  pub decode : String → Option Payload
  pub uuid : ℕ → String

pub record AuthSettings : Type 0 where
  pub access_seconds : ℕ
  pub refresh_seconds : ℕ
  pub bonus : Decimal
  pub bonus_asset : String

pub data AuthError : Type 0 where
  already_registered multiple_results incorrect blocked : AuthError
  account_locked : ℕ → AuthError
  not_authenticated invalid_token revoked no_user insufficient_permissions : AuthError
  rate_limit_exceeded validation_failed : AuthError

pub data Answer (A : Type 0) : Type 0 where
  yes : A → Answer A
  no : AuthError → Answer A

-- The users, the other tables, the client of the store if there is one, and the number of the next
-- `uuid4`; the clock in seconds.
pub record World (S : Type 0) : Type 0 where
  pub users : List User
  pub db : Db
  pub client : Option S
  pub next_uuid : ℕ
  pub seconds : ℕ

pub record TokenResponse : Type 0 where
  pub access_token : String
  pub refresh_token : String

unfoldable pub find_user : ℕ → List User → Option User
find_user i [] = none
find_user i (u ∷ us) = if u.id == i then some u else find_user i us

unfoldable pub find_email : String → List User → Option User
find_email email [] = none
find_email email (u ∷ us) = if str_eq u.email email then some u else find_email email us

-- `scalar_one_or_none`, which raises on two rows or more.
pub data Rows : Type 0 where
  no_row many : Rows
  one_row : User → Rows

abbrev pub scalar_one_or_none : List User → Rows
scalar_one_or_none [] = Rows.no_row
scalar_one_or_none (u ∷ []) = Rows.one_row u
scalar_one_or_none (u ∷ v ∷ us) = Rows.many

abbrev pub is_taken : String → String → User → Bool
is_taken email username u = str_eq u.email email || str_eq u.username username

-- The demo bonus; an error of it is logged, and the session commits what there is.
abbrev pub add_bonus : String → Decimal → ℕ → Db → Db
add_bonus symbol bonus user_id db =
    if ltb_ℤ (pos 0) bonus
    then (credit user_id symbol bonus TransactionType.deposit none db).1
    else db

-- What a registration does to the other tables: the new user takes a key, and has the bonus.
unfoldable pub add_account : String → Decimal → Db → Db
add_account symbol bonus db =
    add_bonus symbol bonus db.next_id (record db { next_id = db.next_id + 1 })

module _ {S : Type 0} (redis : Commands S) (crypto : Crypto) (settings : AuthSettings) where
  unfoldable pub blacklist_token : String → ℕ → Option S → Option S
  blacklist_token jti ttl none = none
  blacklist_token jti ttl (some s) =
      some (if ttl == 0 then s else redis.set (Key.blacklist jti) "1" ttl s)

  unfoldable pub is_token_blacklisted : String → Option S → Bool
  is_token_blacklisted jti none = false
  is_token_blacklisted jti (some s) = is_some (redis.get (Key.blacklist jti) s)

  unfoldable pub remaining_ttl : Payload → ℕ → ℕ
  remaining_ttl payload now = payload.exp - now

  abbrev pub of_type : TokenType → Option Payload → Option Payload
  of_type expected none = none
  of_type expected (some p) = if token_type_eq p.type expected then some p else none

  unfoldable pub decode_token : String → TokenType → Option Payload
  decode_token token expected = of_type expected (crypto.decode token)

  unfoldable pub create_token : ℕ → TokenType → ℕ → ℕ → ℕ → String
  create_token user_id type lifetime now number = crypto.encode (record {
    sub = user_id;
    exp = now + lifetime;
    iat = now;
    jti = crypto.uuid number;
    type = type;
  })

  -- A pair of tokens for the user.
  unfoldable pub issue : ℕ → World S → Answer TokenResponse × World S
  issue user_id w = (
    Answer.yes (record {
      access_token = create_token user_id access settings.access_seconds w.seconds w.next_uuid;
      refresh_token =
          create_token user_id refresh_ settings.refresh_seconds w.seconds (w.next_uuid + 1);
    }),
    record w { next_uuid = w.next_uuid + 2 },
  )

  abbrev pub add_user : String → String → String → World S → World S
  add_user email username password w = record w {
    users =
        w.users
        ++ record {
          id = w.db.next_id;
          email = email;
          username = username;
          hashed_password = crypto.hash password;
          role = user;
          is_active = true;
          created_at = w.db.now;
        }
          ∷ [];
    db = add_account settings.bonus_asset settings.bonus w.db;
  }

  abbrev pub register_if :
      Rows → String → String → String → World S → Answer TokenResponse × World S
  register_if Rows.many email username password w = (Answer.no AuthError.multiple_results, w)
  register_if (Rows.one_row u) email username password w =
      (Answer.no AuthError.already_registered, w)
  register_if Rows.no_row email username password w =
      issue w.db.next_id (add_user email username password w)

  -- The endpoint's body, on a request that has been let through.
  unfoldable pub register_body : String → String → String → World S → Answer TokenResponse × World S
  register_body email username password w =
      register_if (scalar_one_or_none (select (is_taken email username) w.users)) email username
        password w

  -- The failures counted by address, with a window of 300 seconds.
  abbrev pub count_address : String → Option S → Option S
  count_address ip none = none
  count_address ip (some s) =
      let k = Key.failed ip in
      let s' = redis.incr k s in
      some (if redis.counter k s' == 1 then redis.expire k 300 s' else s')

  -- A login that is not locked out.
  abbrev pub login_as :
      Option User → String → String → String → World S → Answer TokenResponse × World S
  login_as none email password ip w = (
    Answer.no AuthError.incorrect,
    record w { client = (record_failed_login redis email (count_address ip w.client)).1 },
  )
  login_as (some u) email password ip w =
      if not (crypto.verify password u.hashed_password)
      then (
        Answer.no AuthError.incorrect,
        record w { client = (record_failed_login redis email (count_address ip w.client)).1 },
      )
      else if not u.is_active
      then (Answer.no AuthError.blocked, w)
      else issue u.id (record w { client = reset_failed_logins redis u.email w.client })

  -- The endpoint's body, on a request that has been let through.
  unfoldable pub login_body : String → String → String → World S → Answer TokenResponse × World S
  login_body email password ip w =
      let remaining = is_account_locked redis email w.client in
      if ltb 0 remaining
      then (Answer.no (AuthError.account_locked remaining), w)
      else login_as (find_email email w.users) email password ip w
