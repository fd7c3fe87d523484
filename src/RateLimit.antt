-- ===== src/RateLimit.antt =====
-- backend/app/core/ratelimit.py: fixed-window request counters and the lockout after failed logins.
-- Every call goes on without the store when the client is not there.
pub mod Lockout
use crypto_exchange_pro.Prelude.{
  ℕ, ⊤, String, Bool, true, false, Option, none, some, ◌+◌, ◌*◌, ◌&&◌, ◌==◌, leb, not,
  if◌then◌else◌,
}
use crypto_exchange_pro.Redis.{Key, Scope, Commands}

abbrev pub failed_login_threshold : ℕ
failed_login_threshold = 5

abbrev pub lockout_seconds : ℕ
lockout_seconds = 900

pub data Refusal : Type 0 where
  account_locked : ℕ → Refusal
  rate_limit_exceeded : Refusal

module _ {S : Type 0} (redis : Commands S) where
  -- The counter is incremented, and its window starts if none is running.
  unfoldable pub is_allowed : Scope → String → ℕ → ℕ → Option S → Bool × Option S
  is_allowed scope key limit window none = (true, none)
  is_allowed scope key limit window (some s) =
      let k = Key.rate scope key in
      let s' = redis.expire_nx k window (redis.incr k s) in
      (leb (redis.counter k (redis.incr k s)) limit, some s')

  -- `rate_limit`: by the address of the client.
  unfoldable pub rate_limit : String → ℕ → ℕ → String → Option S → Option Refusal × Option S
  rate_limit scope limit window ip client =
      let (allowed, client') = is_allowed (Scope.plain scope) ip limit window client in
      (if allowed then none else some Refusal.rate_limit_exceeded, client')

  -- `rate_limit_user`: two counters, `scope:user` and `scope:ip`, and both are counted first.
  unfoldable pub rate_limit_user :
      String → ℕ → ℕ → String → String → Option S → Option Refusal × Option S
  rate_limit_user scope limit window user_id ip client =
      let (user_ok, client1) = is_allowed (Scope.by_user scope) user_id limit window client in
      let (ip_ok, client2) = is_allowed (Scope.by_ip scope) ip limit window client1 in
      (if user_ok && ip_ok then none else some Refusal.rate_limit_exceeded, client2)

  -- The seconds that are left of a lockout, 0 if there is none.
  unfoldable pub is_account_locked : String → Option S → ℕ
  is_account_locked email none = 0
  is_account_locked email (some s) = redis.ttl (Key.lock email) s

  -- The expiry that comes with the first failure.
  abbrev pub start_window : Key → ℕ → S → S
  start_window k counter s = if counter == 1 then redis.expire k lockout_seconds s else s

  abbrev pub lock_if_many : String → ℕ → S → S
  lock_if_many email counter s =
      if leb failed_login_threshold counter
      then redis.set (Key.lock email) "1" lockout_seconds s
      else s

  unfoldable pub record_failed_login : String → Option S → ℕ × Option S
  record_failed_login email none = (0, none)
  record_failed_login email (some s) =
      let k = Key.failed email in
      let s1 = redis.incr k s in
      let counter = redis.counter k s1 in
      (counter, some (lock_if_many email counter (start_window k counter s1)))

  unfoldable pub reset_failed_logins : String → Option S → Option S
  reset_failed_logins email none = none
  reset_failed_logins email (some s) =
      some (redis.delete (Key.lock email) (redis.delete (Key.failed email) s))
