-- ===== src/RateLimit/Lockout.antt =====
-- Failed logins and requests in a row (backend/app/core/ratelimit.py).
use crypto_exchange_pro.Prelude.{
  ℕ, zero, suc, String, Option, some, ◌+◌, ◌≡◌, refl, ap, ◌∙◌, arith, if◌then◌else◌, Bool-cases,
  inl, inr, leb, ◌==◌,
}
use crypto_exchange_pro.Redis.{Key, Scope, Commands, IsRedis}
use crypto_exchange_pro.RateLimit.{
  is_allowed, is_account_locked, record_failed_login, reset_failed_logins, start_window,
  lock_if_many, failed_login_threshold, lockout_seconds,
}

module _ {S : Type 0} (redis : Commands S) (laws : IsRedis redis) where
  -- That many failures, one after another.
  unfoldable pub failures : ℕ → String → Option S → Option S
  failures zero email client = client
  failures (suc n) email client = failures n email (record_failed_login redis email client).1

  started :
      (email : String) (c : ℕ) (s : S)
      → let s' = start_window redis (Key.failed email) c s in
        (redis.counter (Key.failed email) s' ≡ redis.counter (Key.failed email) s)
        × (redis.ttl (Key.lock email) s' ≡ redis.ttl (Key.lock email) s)
  started email c s = elim (Bool-cases (c == 1)) [
    | inl t ↦ rw t (
      laws.counter-expire (Key.failed email) (Key.failed email) 899 s,
      laws.ttl-expire_other (Key.lock email) (Key.failed email) lockout_seconds s refl,
    )
    | inr f ↦ rw f (refl, refl)
  ]

  locked :
      (email : String) (c : ℕ) (s : S)
      → let s' = lock_if_many redis email c s in
        (redis.counter (Key.failed email) s' ≡ redis.counter (Key.failed email) s)
        × (redis.ttl (Key.lock email) s' ≡ (
            if leb failed_login_threshold c then lockout_seconds else redis.ttl (Key.lock email) s))
  locked email c s = elim (Bool-cases (leb failed_login_threshold c)) [
    | inl t ↦ rw t (
      laws.counter-set (Key.failed email) (Key.lock email) "1" lockout_seconds s refl,
      laws.ttl-set (Key.lock email) "1" lockout_seconds s,
    )
    | inr f ↦ rw f (refl, refl)
  ]

  one_failure :
      (email : String) (s : S)
      → (s' : S) × ((record_failed_login redis email (some s)).1 ≡ some s')
        × (redis.counter (Key.failed email) s' ≡ redis.counter (Key.failed email) s + 1)
        × (redis.ttl (Key.lock email) s' ≡ (
            if leb failed_login_threshold (redis.counter (Key.failed email) s + 1)
            then lockout_seconds
            else redis.ttl (Key.lock email) s))
  unfolding record_failed_login
  one_failure email s =
      let k = Key.failed email in
      let c = redis.counter k s + 1 in
      let s1 = redis.incr k s in
      let (count1, ttl1) = started email c s1 in
      let (count2, ttl2) = locked email c (start_window redis k c s1) in
      (
        lock_if_many redis email c (start_window redis k c s1),
        rw (laws.counter-incr k s) refl,
        count2 ∙ count1 ∙ laws.counter-incr k s,
        rw (ttl2, ttl1, laws.ttl-incr (Key.lock email) k s) refl,
      )

  counted :
      (n c : ℕ) (email : String) (s : S)
      → redis.counter (Key.failed email) s ≡ c
      → redis.ttl (Key.lock email) s ≡ (if leb failed_login_threshold c then lockout_seconds else 0)
      → is_account_locked redis email (failures n email (some s))
        ≡ (if leb failed_login_threshold (c + n) then lockout_seconds else 0)
  unfolding failures is_account_locked
  counted zero c email s count left = ground (arith, left)
  counted (suc n) c email s count left =
      let (s', runs, count', left') = one_failure email s in
      let locks : redis.ttl (Key.lock email) s'
          ≡ (if leb failed_login_threshold (c + 1) then lockout_seconds else 0) =
        ground (arith, left, left', count) in
      let e : c + suc n ≡ c + 1 + n = omega arith in
      rw (runs, e) (counted n (c + 1) email s' (omega (arith, count, count')) locks)

  -- An account with no failures counted and no lock is locked for 900 seconds after five failed
  -- logins or more, and not locked after fewer, as long as no expiry intervenes.
  pub failures_lock :
      (n : ℕ) (email : String) (s : S)
      → redis.counter (Key.failed email) s ≡ 0
      → redis.ttl (Key.lock email) s ≡ 0
      → is_account_locked redis email (failures n email (some s))
        ≡ (if leb failed_login_threshold n then lockout_seconds else 0)
  failures_lock n email s count left =
      let e : 0 + n ≡ n = omega arith in rw e at (counted n 0 email s count left)

  -- A successful login's reset unlocks the account, and the next failure counts as the first.
  pub reset_failed_logins_lem :
      (email : String) (s : S)
      → let client = reset_failed_logins redis email (some s) in
        (is_account_locked redis email client ≡ 0)
        × ((record_failed_login redis email client).0 ≡ 1)
  unfolding reset_failed_logins is_account_locked record_failed_login
  reset_failed_logins_lem email s = (
    laws.ttl-delete (Key.lock email) _,
    laws.counter-incr (Key.failed email) _
        ∙ ap (λ c. c + 1)
            (laws.counter-delete_other (Key.failed email) (Key.lock email) _ refl
              ∙ laws.counter-delete (Key.failed email) s),
  )

  -- That many requests, one after another.
  unfoldable pub requests : ℕ → Scope → String → ℕ → ℕ → Option S → Option S
  requests zero scope key limit window client = client
  requests (suc n) scope key limit window client =
      requests n scope key limit window (is_allowed redis scope key limit window client).1

  counted_requests :
      (n c : ℕ) (scope : Scope) (key : String) (limit window : ℕ) (s : S)
      → redis.counter (Key.rate scope key) s ≡ c
      → (is_allowed redis scope key limit
          (window + 1)
          (requests n scope key limit (window + 1) (some s))).0
        ≡ leb (c + n + 1) limit
  unfolding requests is_allowed
  counted_requests zero c scope key limit window s count =
      let e : redis.counter (Key.rate scope key) (redis.incr (Key.rate scope key) s) ≡ c + 0 + 1 =
        omega (arith, laws.counter-incr (Key.rate scope key) s, count) in
      rw e refl
  counted_requests (suc n) c scope key limit window s count =
      let k = Key.rate scope key in
      let s' = redis.expire_nx k (window + 1) (redis.incr k s) in
      let count' : redis.counter k s' ≡ c + 1 =
        omega (
          arith,
          laws.counter-expire_nx k k window (redis.incr k s),
          laws.counter-incr k s,
          count,
        ) in
      let e : c + suc n + 1 ≡ c + 1 + n + 1 = omega arith in
      rw e (counted_requests n (c + 1) scope key limit window s' count')

  -- In a window that starts with no requests, the request after `n` others passes exactly if its
  -- number is within the limit, as long as the window does not expire.
  pub is_allowed_lem :
      (n : ℕ) (scope : Scope) (key : String) (limit window : ℕ) (s : S)
      → redis.counter (Key.rate scope key) s ≡ 0
      → (is_allowed redis scope key limit
          (window + 1)
          (requests n scope key limit (window + 1) (some s))).0
        ≡ leb (n + 1) limit
  is_allowed_lem n scope key limit window s count =
      let e : 0 + n ≡ n = omega arith in
      rw e at (counted_requests n 0 scope key limit window s count)
