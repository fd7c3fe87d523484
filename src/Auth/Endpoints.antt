-- ===== src/Auth/Endpoints.antt =====
-- Registration and login as they are served: the rate limit by address, the validation of the
-- request, and the body (backend/app/routers/auth.py, lines 38 to 158, and the responses of
-- backend/app/core/ratelimit.py).
use crypto_exchange_pro.Prelude.{ℕ, String, Option, none, some}
use crypto_exchange_pro.Redis.{Commands}
use crypto_exchange_pro.RateLimit.{Refusal, rate_limit}
use crypto_exchange_pro.Auth.{
  Crypto, AuthSettings, AuthError, Answer, yes, no, World, TokenResponse, register_body, login_body,
}
use crypto_exchange_pro.Auth.Schemas.{
  RegisterRequest, LoginRequest, validate_register, validate_login,
}

abbrev pub auth_rate_limit : ℕ
auth_rate_limit = 20

abbrev pub auth_rate_window : ℕ
auth_rate_window = 60

-- The status of a response that is an error.
unfoldable pub error_status : AuthError → ℕ
error_status AuthError.already_registered = 409
error_status AuthError.multiple_results = 500
error_status AuthError.incorrect = 401
error_status AuthError.blocked = 403
error_status (AuthError.account_locked remaining) = 423
error_status AuthError.not_authenticated = 401
error_status AuthError.invalid_token = 401
error_status AuthError.revoked = 401
error_status AuthError.no_user = 401
error_status AuthError.insufficient_permissions = 403
error_status AuthError.rate_limit_exceeded = 429
error_status AuthError.validation_failed = 422

-- The status of a response, given the one of a success.
abbrev pub status_of : {A : Type 0} → ℕ → Answer A → ℕ
status_of success (yes a) = success
status_of success (no e) = error_status e

module _ {S : Type 0} (redis : Commands S) (crypto : Crypto) (settings : AuthSettings)
    (address : String → Option String) where
  abbrev pub register_checked :
      Option Refusal → Option RegisterRequest → World S → Answer TokenResponse × World S
  register_checked (some r) sent w = (no AuthError.rate_limit_exceeded, w)
  register_checked none none w = (no AuthError.validation_failed, w)
  register_checked none (some d) w =
      register_body redis crypto settings d.email d.username d.password w

  -- The dependency counts the request, also one that the validation refuses.
  unfoldable pub register : RegisterRequest → String → World S → Answer TokenResponse × World S
  register sent ip w =
      let (refused, client) =
        rate_limit redis "auth_register" auth_rate_limit auth_rate_window ip w.client in
      register_checked refused (validate_register address sent) (record w { client = client })

  abbrev pub login_checked :
      Option Refusal → Option LoginRequest → String → World S → Answer TokenResponse × World S
  login_checked (some r) sent ip w = (no AuthError.rate_limit_exceeded, w)
  login_checked none none ip w = (no AuthError.validation_failed, w)
  login_checked none (some d) ip w = login_body redis crypto settings d.email d.password ip w

  unfoldable pub login : LoginRequest → String → World S → Answer TokenResponse × World S
  login sent ip w =
      let (refused, client) =
        rate_limit redis "auth_login" auth_rate_limit auth_rate_window ip w.client in
      login_checked refused (validate_login address sent) ip (record w { client = client })
