-- ===== src/Redis.antt =====
-- The key-value store that backend/app/core/ratelimit.py, security.py and cache.py talk to: Redis,
-- known by the commands that they use and what those commands are documented to do between
-- expiries. A command that fails is not modelled apart from a client that is not there.
use crypto_exchange_pro.Prelude.{ℕ, String, ◌+◌, ◌≡◌, Bool, false, Option, none, some, ◌&&◌}
use text.Mathlib.Text.{◌==◌ as str_eq}

-- The scope of a counter: itself, with `:user` or with `:ip`; and the keys, by the prefix of their string: `rate:`, `auth:lock:`, `auth:failed:`,
-- `crypto:ws-ticket:` and `crypto:token:blacklist:`.
pub data Scope : Type 0 where
  plain by_user by_ip : String → Scope

pub data Key : Type 0 where
  rate : Scope → String → Key
  lock failed ticket blacklist : String → Key

abbrev pub same_scope : Scope → Scope → Bool
same_scope (Scope.plain s) (Scope.plain t) = str_eq s t
same_scope (Scope.by_user s) (Scope.by_user t) = str_eq s t
same_scope (Scope.by_ip s) (Scope.by_ip t) = str_eq s t
same_scope _ _ = false

abbrev pub same_key : Key → Key → Bool
same_key (Key.rate s k) (Key.rate t l) = same_scope s t && str_eq k l
same_key (Key.lock e) (Key.lock f) = str_eq e f
same_key (Key.failed e) (Key.failed f) = str_eq e f
same_key (Key.ticket e) (Key.ticket f) = str_eq e f
same_key (Key.blacklist e) (Key.blacklist f) = str_eq e f
same_key _ _ = false

-- The commands on stores of type `S`. A counter that is not there counts as 0; `ttl` is 0 for a
-- key that is not there or does not expire.
pub record Commands (S : Type 0) : Type 0 where
  pub counter : Key → S → ℕ
  pub ttl : Key → S → ℕ
  pub get : Key → S → Option String
  pub incr : Key → S → S
  pub expire : Key → ℕ → S → S
  pub expire_nx : Key → ℕ → S → S
  pub set : Key → String → ℕ → S → S
  pub delete : Key → S → S

-- What the commands do, as Redis documents them, for expiries above zero.
pub record IsRedis {S : Type 0} (c : Commands S) : Type 0 where
  pub counter-incr : (k : Key) (s : S) → c.counter k (c.incr k s) ≡ c.counter k s + 1
  pub counter-incr_other :
      (j k : Key) (s : S) → same_key j k ≡ false → c.counter j (c.incr k s) ≡ c.counter j s
  pub counter-expire :
      (j k : Key) (t : ℕ) (s : S) → c.counter j (c.expire k (t + 1) s) ≡ c.counter j s
  pub counter-expire_nx :
      (j k : Key) (t : ℕ) (s : S) → c.counter j (c.expire_nx k (t + 1) s) ≡ c.counter j s
  pub counter-set :
      (j k : Key) (v : String) (t : ℕ) (s : S)
      → same_key j k ≡ false
      → c.counter j (c.set k v t s) ≡ c.counter j s
  pub counter-delete : (k : Key) (s : S) → c.counter k (c.delete k s) ≡ 0
  pub counter-delete_other :
      (j k : Key) (s : S) → same_key j k ≡ false → c.counter j (c.delete k s) ≡ c.counter j s
  pub ttl-incr : (j k : Key) (s : S) → c.ttl j (c.incr k s) ≡ c.ttl j s
  pub ttl-expire_other :
      (j k : Key) (t : ℕ) (s : S) → same_key j k ≡ false → c.ttl j (c.expire k t s) ≡ c.ttl j s
  pub ttl-set : (k : Key) (v : String) (t : ℕ) (s : S) → c.ttl k (c.set k v t s) ≡ t
  pub ttl-delete : (k : Key) (s : S) → c.ttl k (c.delete k s) ≡ 0
  pub get-set : (k : Key) (v : String) (t : ℕ) (s : S) → c.get k (c.set k v (t + 1) s) ≡ some v
  pub get-delete : (k : Key) (s : S) → c.get k (c.delete k s) ≡ none
