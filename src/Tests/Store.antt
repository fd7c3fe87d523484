-- ===== src/Tests/Store.antt =====
-- A store that does what Redis documents, and the lockout and rate limit theorems on it.
use crypto_exchange_pro.Prelude.{
  str_eq_refl, ℕ, String, true, false, Option, none, some, ◌+◌, ◌≡◌, ◌==◌, refl, if◌then◌else◌,
  arith,
}
use crypto_exchange_pro.Redis.{Key, Scope, Commands, IsRedis, same_key, same_scope}
use crypto_exchange_pro.Auth.Tickets.{
  create_ws_ticket, consume_ws_ticket, create_ws_ticket-consume_ws_ticket,
}
use crypto_exchange_pro.RateLimit.{
  is_allowed, is_account_locked, record_failed_login, reset_failed_logins,
}
use crypto_exchange_pro.RateLimit.Lockout.{
  failures, failures_lock, reset_failed_logins_lem, requests, is_allowed_lem,
}

pub record Store : Type 0 where
  pub counters : Key → ℕ
  pub lives : Key → ℕ
  pub values : Key → Option String

abbrev at_key {ℓ} : {A : Type ℓ} → Key → A → (Key → A) → Key → A
at_key k a f j = if same_key j k then a else f j

abbrev pub memory : Commands Store
memory = record {
  counter = λ k s. s.counters k;
  ttl = λ k s. s.lives k;
  get = λ k s. s.values k;
  incr = λ k s. record s { counters = at_key k (s.counters k + 1) s.counters };
  expire = λ k t s. record s { lives = at_key k t s.lives };
  expire_nx = λ k t s. if s.lives k == 0 then record s { lives = at_key k t s.lives } else s;
  set = λ k v t s. record {
    counters = at_key k 0 s.counters;
    lives = at_key k t s.lives;
    values = at_key k (some v) s.values;
  };
  delete = λ k s. record {
    counters = at_key k 0 s.counters;
    lives = at_key k 0 s.lives;
    values = at_key k none s.values;
  };
}

same_scope_refl : (s : Scope) → same_scope s s ≡ true
same_scope_refl (Scope.plain s) = str_eq_refl s
same_scope_refl (Scope.by_user s) = str_eq_refl s
same_scope_refl (Scope.by_ip s) = str_eq_refl s

same_key_refl : (k : Key) → same_key k k ≡ true
same_key_refl (Key.rate s k) = rw (same_scope_refl s, str_eq_refl k) refl
same_key_refl (Key.lock e) = str_eq_refl e
same_key_refl (Key.failed e) = str_eq_refl e
same_key_refl (Key.ticket e) = str_eq_refl e
same_key_refl (Key.blacklist e) = str_eq_refl e

pub memory-IsRedis : IsRedis memory
memory-IsRedis = record {
  counter-incr = λ k s. rw (same_key_refl k) refl;
  counter-incr_other = λ j k s h. rw h refl;
  counter-expire = λ j k t s. refl;
  counter-expire_nx = λ j k t s. ground arith;
  counter-set = λ j k v t s h. rw h refl;
  counter-delete = λ k s. rw (same_key_refl k) refl;
  counter-delete_other = λ j k s h. rw h refl;
  ttl-incr = λ j k s. refl;
  ttl-expire_other = λ j k t s h. rw h refl;
  ttl-set = λ k v t s. rw (same_key_refl k) refl;
  ttl-delete = λ k s. rw (same_key_refl k) refl;
  get-set = λ k v t s. rw (same_key_refl k) refl;
  get-delete = λ k s. rw (same_key_refl k) refl;
}

abbrev pub fresh : Store
fresh = record { counters = λ k. 0; lives = λ k. 0; values = λ k. none }

failures_lock_example :
    is_account_locked memory "ann@example.com"
      (failures memory memory-IsRedis 5 "ann@example.com" (some fresh))
    ≡ 900
failures_lock_example = failures_lock memory memory-IsRedis 5 "ann@example.com" fresh refl refl

reset_failed_logins_lem_example :
    let client = reset_failed_logins memory "ann@example.com" (some fresh) in
    (is_account_locked memory "ann@example.com" client ≡ 0)
    × ((record_failed_login memory "ann@example.com" client).0 ≡ 1)
reset_failed_logins_lem_example =
    reset_failed_logins_lem memory memory-IsRedis "ann@example.com" fresh

is_allowed_lem_example :
    (is_allowed memory (Scope.plain "auth_login") "10.0.0.1" 20 60 (
      requests memory memory-IsRedis 20 (Scope.plain "auth_login") "10.0.0.1" 20 60 (some fresh))).0
    ≡ false
is_allowed_lem_example =
    is_allowed_lem memory memory-IsRedis 20 (Scope.plain "auth_login") "10.0.0.1" 20 59 fresh refl

create_ws_ticket-consume_ws_ticket_example :
    let (ticket, client) = create_ws_ticket memory "t1" "ann" (some fresh) in
    let (first, after) = consume_ws_ticket memory "t1" client in
    (ticket ≡ some "t1") × (first ≡ some "ann") × ((consume_ws_ticket memory "t1" after).0 ≡ none)
create_ws_ticket-consume_ws_ticket_example =
    create_ws_ticket-consume_ws_ticket memory memory-IsRedis "t1" "ann" fresh
