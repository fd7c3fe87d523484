-- ===== src/Auth/Tokens.antt =====
-- Tokens in use (backend/app/dependencies/auth.py; refresh and logout of backend/app/routers/auth.py).
use crypto_exchange_pro.Prelude.{
  String, Bool, false, Option, none, some, List, [], ◌∷◌, ◌||◌, if◌then◌else◌,
}
use crypto_exchange_pro.Redis.{Commands}
use crypto_exchange_pro.Auth.{
  User, UserRole, role_eq, Payload, Crypto, AuthSettings, AuthError, Answer, yes, no, World,
  TokenResponse, access, refresh_, find_user, blacklist_token, is_token_blacklisted, remaining_ttl,
  decode_token, issue,
}

module _ {S : Type 0} (redis : Commands S) (crypto : Crypto) (settings : AuthSettings) where
  abbrev pub active_user : Option User → Answer User
  active_user none = no AuthError.no_user
  active_user (some u) = if u.is_active then yes u else no AuthError.blocked

  abbrev pub user_of : Option Payload → World S → Answer User
  user_of none w = no AuthError.invalid_token
  user_of (some p) w =
      if is_token_blacklisted redis crypto settings p.jti w.client
      then no AuthError.revoked
      else active_user (find_user p.sub w.users)

  unfoldable pub get_current_user : Option String → World S → Answer User
  get_current_user none w = no AuthError.not_authenticated
  get_current_user (some token) w = user_of (decode_token redis crypto settings token access) w

  abbrev pub is_role : List UserRole → UserRole → Bool
  is_role [] r = false
  is_role (q ∷ qs) r = role_eq r q || is_role qs r

  abbrev pub with_role : List UserRole → Answer User → Answer User
  with_role roles (no e) = no e
  with_role roles (yes u) =
      if is_role roles u.role then yes u else no AuthError.insufficient_permissions

  unfoldable pub require_roles : List UserRole → Option String → World S → Answer User
  require_roles roles credentials w = with_role roles (get_current_user credentials w)

  abbrev pub rotate : Option User → Payload → World S → Answer TokenResponse × World S
  rotate none p w = (no AuthError.no_user, w)
  rotate (some u) p w =
      if u.is_active
      then issue redis crypto settings u.id (record w {
        client = blacklist_token redis crypto settings p.jti settings.refresh_seconds w.client;
      })
      else (no AuthError.no_user, w)

  abbrev pub refresh_with : Option Payload → World S → Answer TokenResponse × World S
  refresh_with none w = (no AuthError.invalid_token, w)
  refresh_with (some p) w =
      if is_token_blacklisted redis crypto settings p.jti w.client
      then (no AuthError.revoked, w)
      else rotate (find_user p.sub w.users) p w

  unfoldable pub refresh : String → World S → Answer TokenResponse × World S
  refresh token w = refresh_with (decode_token redis crypto settings token refresh_) w

  abbrev pub revoke_refresh : Option Payload → World S → World S
  revoke_refresh none w = w
  revoke_refresh (some p) w = record w {
    client = blacklist_token redis crypto settings p.jti settings.refresh_seconds w.client;
  }

  abbrev pub revoke_access : Option Payload → World S → World S
  revoke_access none w = w
  revoke_access (some p) w = record w {
    client =
        blacklist_token redis crypto settings p.jti
          (remaining_ttl redis crypto settings p w.seconds) w.client;
  }

  abbrev pub revoke_given : Option String → World S → World S
  revoke_given none w = w
  revoke_given (some token) w = revoke_access (decode_token redis crypto settings token access) w

  unfoldable pub logout : String → Option String → World S → World S
  logout refresh_token access_token w =
      revoke_given access_token
        (revoke_refresh (decode_token redis crypto settings refresh_token refresh_) w)
