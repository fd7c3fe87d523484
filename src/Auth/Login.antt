-- ===== src/Auth/Login.antt =====
-- Registration, login, refresh and logout (backend/app/routers/auth.py, lines 38 to 208).
use crypto_exchange_pro.Prelude.{
  ℕ, zero, suc, String, ◌+◌, ◌≡◌, refl, Bool, true, false, Option, none, some, List, [], ◌∷◌, ◌&&◌,
  ◌==◌, ltb, not, is_some, length, select, arith, Bool-cases, inl, inr,
}
use crypto_exchange_pro.Redis.{Key, Commands, IsRedis}
use crypto_exchange_pro.RateLimit.{Refusal, rate_limit, is_account_locked}
use crypto_exchange_pro.Auth.{
  User, Payload, Crypto, AuthSettings, AuthError, Answer, yes, no, World, access, refresh_,
  find_user, find_email, is_taken, scalar_one_or_none, blacklist_token, is_token_blacklisted,
  remaining_ttl, decode_token, issue, register_body, login_body, login_as, register_if,
}
use crypto_exchange_pro.Auth.Schemas.{
  RegisterRequest, LoginRequest, validate_register, validate_login,
}
use crypto_exchange_pro.Auth.Endpoints.{
  auth_rate_limit, auth_rate_window, error_status, status_of, register, register_checked, login,
  login_checked,
}
use crypto_exchange_pro.Auth.Tokens.{
  get_current_user, refresh, logout, revoke_refresh, revoke_given,
}

abbrev pub is_yes : {A : Type 0} → Answer A → Bool
is_yes (yes a) = true
is_yes (no e) = false

module _ {S : Type 0} (redis : Commands S) (laws : IsRedis redis) (crypto : Crypto)
    (settings : AuthSettings) where
  -- A token whose number has been put on the blacklist for some time is on it.
  blacklisted :
      (jti : String) (ttl : ℕ) (s : S)
      → is_token_blacklisted redis crypto settings jti
          (blacklist_token redis crypto settings jti (ttl + 1) (some s))
        ≡ true
  unfolding is_token_blacklisted blacklist_token
  blacklisted jti ttl s =
      let positive : ((ttl + 1) == 0) ≡ false = ground arith in
      rw positive (rw (laws.get-set (Key.blacklist jti) "1" ttl s) refl)

  still_there :
      (jti : String) (ttl : ℕ) (s : S)
      → (s' : S) × (blacklist_token redis crypto settings jti ttl (some s) ≡ some s')
  unfolding blacklist_token
  still_there jti ttl s = (_, refl)

  -- With the store there, a refresh token that decodes, that is not revoked and whose user is
  -- active gives new tokens, and is refused as revoked when it is presented again.
  pub refresh_rotates :
      (token : String) (w : World S) (s : S) (p : Payload) (u : User) (t : ℕ)
      → settings.refresh_seconds ≡ t + 1
      → w.client ≡ some s
      → decode_token redis crypto settings token refresh_ ≡ some p
      → is_token_blacklisted redis crypto settings p.jti w.client ≡ false
      → find_user p.sub w.users ≡ some u
      → u.is_active ≡ true
      → (is_yes (refresh redis crypto settings token w).0 ≡ true)
        × ((refresh redis crypto settings token (refresh redis crypto settings token w).1).0
            ≡ no AuthError.revoked)
  unfolding refresh issue is_token_blacklisted blacklist_token
  refresh_rotates token w s p u t lifetime there decodes valid known is_active =
      simp (decodes, valid, known, is_active)
        (refl, rw (lifetime, there, blacklisted p.jti t s) refl)

  -- With the store there, an access token that decodes and has time left is refused as revoked after
  -- a logout that presents it.
  pub logout_revokes :
      (token refresh_token : String) (w : World S) (s : S) (p : Payload) (t : ℕ)
      → w.client ≡ some s
      → decode_token redis crypto settings token access ≡ some p
      → remaining_ttl redis crypto settings p w.seconds ≡ t + 1
      → get_current_user redis crypto settings
          (some token)
          (logout redis crypto settings refresh_token (some token) w)
        ≡ no AuthError.revoked
  unfolding logout get_current_user
  logout_revokes token refresh_token w s p t there decodes left =
      go (decode_token redis crypto settings refresh_token refresh_)
    where
      go :
          (o : Option Payload)
          → get_current_user redis crypto settings (some token) (
              revoke_given redis crypto settings
                (some token)
                (revoke_refresh redis crypto settings o w))
            ≡ no AuthError.revoked
      go none = rw (decodes, left, there, blacklisted p.jti t s) refl
      go (some q) =
          let (s', e) = still_there q.jti settings.refresh_seconds s in
          rw (decodes, left, there, e, blacklisted p.jti t s') refl

  abbrev admits : String → Option User → Bool
  admits password none = false
  admits password (some u) = crypto.verify password u.hashed_password && u.is_active

  module _ (address : String → Option String) where
    -- What a valid login needs: no lock on the account, and a user who is let in.
    abbrev lets_in : Option LoginRequest → World S → Bool
    lets_in none w = false
    lets_in (some d) w =
        not (ltb 0 (is_account_locked redis d.email w.client))
        && admits d.password (find_email d.email w.users)

    login_body-is_yes :
        (email password ip : String) (w : World S)
        → is_yes (login_body redis crypto settings email password ip w).0 ≡ (
            not (ltb 0 (is_account_locked redis email w.client))
            && admits password (find_email email w.users))
    unfolding login_body issue
    login_body-is_yes email password ip w =
        elim (Bool-cases (ltb 0 (is_account_locked redis email w.client))) [
          | inl t ↦ rw t refl
          | inr f ↦ rw f (go (find_email email w.users))
        ]
      where
        go :
            (o : Option User)
            → is_yes (login_as redis crypto settings o email password ip w).0 ≡ admits password o
        go none = refl
        go (some u) = elim (Bool-cases (crypto.verify password u.hashed_password)) [
          | inr n ↦ rw n refl
          | inl y ↦ elim (Bool-cases u.is_active) [
            | inl a ↦ rw (y, a) refl
            | inr b ↦ rw (y, b) refl
          ]
        ]

    -- A login gives tokens exactly if the address is within its rate limit with this request
    -- counted, the request is valid, and then the account is not locked and the email is a user's
    -- who is active and whose password verifies.
    pub login_lem :
        (sent : LoginRequest) (ip : String) (w : World S)
        → let (refused, client) =
            rate_limit redis "auth_login" auth_rate_limit auth_rate_window ip w.client in
          is_yes (login redis crypto settings address sent ip w).0 ≡ (
            not (is_some refused)
            && lets_in (validate_login address sent) (record w { client = client }))
    unfolding login
    login_lem sent ip w =
        let counted = rate_limit redis "auth_login" auth_rate_limit auth_rate_window ip w.client in
        go counted.0 (validate_login address sent) (record w { client = counted.1 })
      where
        go :
            (refused : Option Refusal) (o : Option LoginRequest) (v : World S)
            → is_yes (login_checked redis crypto settings address refused o ip v).0
              ≡ (not (is_some refused) && lets_in o v)
        go (some r) o v = refl
        go none none v = refl
        go none (some d) v = login_body-is_yes d.email d.password ip v

    -- By the number of users who have the email or the username.
    abbrev status_for : ℕ → ℕ
    status_for zero = 201
    status_for (suc zero) = 409
    status_for (suc (suc n)) = 500

    abbrev register_status : Option Refusal → Option RegisterRequest → List User → ℕ
    register_status (some r) o users = 429
    register_status none none users = 422
    register_status none (some d) users =
        status_for (length (select (is_taken d.email d.username) users))

    register_body-status :
        (email username password : String) (w : World S)
        → status_of 201 (register_body redis crypto settings email username password w).0
          ≡ status_for (length (select (is_taken email username) w.users))
    unfolding register_body issue error_status
    register_body-status email username password w = go (select (is_taken email username) w.users)
      where
        go :
            (us : List User)
            → status_of 201
                (register_if redis crypto settings
                  (scalar_one_or_none us)
                  email
                  username
                  password
                  w).0
              ≡ status_for (length us)
        go [] = refl
        go (u ∷ []) = refl
        go (u ∷ v ∷ us) = refl

    -- The status of a registration: 429 if the address is past its rate limit with this request
    -- counted; else 422 if the request is not valid; else 201 if no user has the email or the
    -- stripped username, 409 if there is one such user, and 500 if there are two or more.
    pub status_of-register :
        (sent : RegisterRequest) (ip : String) (w : World S)
        → status_of 201 (register redis crypto settings address sent ip w).0
          ≡ register_status
              (rate_limit redis "auth_register" auth_rate_limit auth_rate_window ip w.client).0
              (validate_register address sent)
              w.users
    unfolding register error_status
    status_of-register sent ip w =
        let counted =
          rate_limit redis "auth_register" auth_rate_limit auth_rate_window ip w.client in
        go counted.0 (validate_register address sent) (record w { client = counted.1 })
      where
        go :
            (refused : Option Refusal) (o : Option RegisterRequest) (v : World S)
            → status_of 201 (register_checked redis crypto settings address refused o v).0
              ≡ register_status refused o v.users
        go (some r) o v = refl
        go none none v = refl
        go none (some d) v = register_body-status d.email d.username d.password v
