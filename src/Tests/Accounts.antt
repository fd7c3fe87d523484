-- ===== src/Tests/Accounts.antt =====
-- Registration, login and tokens at concrete inputs.
use crypto_exchange_pro.Tests.Sample.{usdt, btc, btc_usdt}
use crypto_exchange_pro.Tests.Store.{Store, memory, memory-IsRedis, fresh}
use crypto_exchange_pro.Prelude.{
  ℕ, ◌≡◌, refl, true, false, none, some, [], ◌∷◌, if◌then◌else◌, ◌==◌,
}
use text.Mathlib.Text.{◌==◌ as str_eq}
use crypto_exchange_pro.Prelude.Decimal.{whole}
use crypto_exchange_pro.Exchange.{seeded}
use crypto_exchange_pro.RateLimit.{is_account_locked, rate_limit, is_allowed}
use crypto_exchange_pro.Auth.{
  User, UserRole, Payload, Crypto, AuthSettings, AuthError, no, World, access, refresh_, find_email,
  find_user, decode_token, is_token_blacklisted, remaining_ttl,
}
use crypto_exchange_pro.Auth.Schemas.{
  RegisterRequest, LoginRequest, validate_register, validate_login, strip, strip_start, strip_end,
  is_space,
}
use crypto_exchange_pro.Auth.Endpoints.{status_of, register, login}
use crypto_exchange_pro.Auth.Tokens.{refresh, logout, get_current_user}
use crypto_exchange_pro.Auth.Login.{
  is_yes, refresh_rotates, logout_revokes, login_lem, status_of-register,
}

abbrev pub ann : User
ann = record {
  id = 1;
  email = "ann@example.com";
  username = "ann";
  hashed_password = "secret";
  role = UserRole.trader;
  is_active = true;
  created_at = 0;
}

abbrev bob : User
bob = record ann { id = 2; email = "bob@example.com"; username = "bob" }

abbrev payload_of : ℕ → Payload
payload_of number = record {
  sub = 1;
  exp = 1000;
  iat = 0;
  jti = "t";
  type = if number == 0 then access else refresh_;
}

-- Passwords as they are; two tokens of Ann's.
abbrev pub plain : Crypto
plain = record {
  hash = λ s. s;
  verify = λ s t. str_eq s t;
  encode = λ p. p.jti;
  decode = λ s.
      if str_eq s "a"
      then some (payload_of 0)
      else if str_eq s "r"
      then some (payload_of 1)
      else none;
  uuid = λ n. "t";
}

abbrev pub auth_settings : AuthSettings
auth_settings = record {
  access_seconds = 900;
  refresh_seconds = 604800;
  bonus = whole 1000;
  bonus_asset = "USDT";
}

abbrev pub world : World Store
world = record {
  users = ann ∷ bob ∷ [];
  db = seeded (usdt ∷ btc ∷ []) (btc_usdt ∷ []) 1000;
  client = some fresh;
  next_uuid = 0;
  seconds = 10;
}

decodes_refresh : decode_token memory plain auth_settings "r" refresh_ ≡ some (payload_of 1)
unfolding decode_token
decodes_refresh = refl

decodes_access : decode_token memory plain auth_settings "a" access ≡ some (payload_of 0)
unfolding decode_token
decodes_access = refl

not_revoked : is_token_blacklisted memory plain auth_settings "t" world.client ≡ false
unfolding is_token_blacklisted
not_revoked = refl

finds_ann : find_user 1 world.users ≡ some ann
unfolding find_user
finds_ann = refl

time_left : remaining_ttl memory plain auth_settings (payload_of 0) 10 ≡ 990
unfolding remaining_ttl
time_left = refl

refresh_rotates_example :
    (is_yes (refresh memory plain auth_settings "r" world).0 ≡ true)
    × ((refresh memory plain auth_settings "r" (refresh memory plain auth_settings "r" world).1).0
        ≡ no AuthError.revoked)
refresh_rotates_example =
    refresh_rotates memory memory-IsRedis plain auth_settings "r" world fresh (payload_of 1) ann
      604799 refl refl decodes_refresh not_revoked finds_ann refl

logout_revokes_example :
    get_current_user memory plain auth_settings
      (some "a")
      (logout memory plain auth_settings "r" (some "a") world)
    ≡ no AuthError.revoked
logout_revokes_example =
    logout_revokes memory memory-IsRedis plain auth_settings "a" "r" world fresh (payload_of 0) 989
      refl decodes_access time_left

abbrev log_in : LoginRequest
log_in = record { email = "ann@example.com"; password = "secret" }

-- Ann's email and Bob's name: two rows.
abbrev sign_up : RegisterRequest
sign_up = record { email = "ann@example.com"; username = "  bob "; password = "password" }

login_lem_example :
    is_yes (login memory plain auth_settings (λ s. some s) log_in "10.0.0.1" world).0 ≡ true
unfolding is_account_locked find_email validate_login rate_limit is_allowed
login_lem_example =
    login_lem memory memory-IsRedis plain auth_settings (λ s. some s) log_in "10.0.0.1" world

status_of-register_example :
    status_of 201 (register memory plain auth_settings (λ s. some s) sign_up "10.0.0.1" world).0
    ≡ 500
unfolding validate_register rate_limit is_allowed strip strip_start strip_end is_space
status_of-register_example =
    status_of-register memory memory-IsRedis plain auth_settings (λ s. some s) sign_up "10.0.0.1"
      world
