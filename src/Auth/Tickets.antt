-- ===== src/Auth/Tickets.antt =====
-- The single-use tickets of websockets (backend/app/core/cache.py, lines 83 to 110; ws_ticket of
-- backend/app/routers/auth.py). The user's key is kept as its string.
use crypto_exchange_pro.Prelude.{ℕ, String, ◌≡◌, refl, Option, none, some}
use crypto_exchange_pro.Redis.{Key, Commands, IsRedis}

abbrev pub ws_ticket_ttl : ℕ
ws_ticket_ttl = 60

module _ {S : Type 0} (redis : Commands S) where
  -- `fresh` is the new `uuid4`; no ticket stands for the empty string.
  unfoldable pub create_ws_ticket : String → String → Option S → Option String × Option S
  create_ws_ticket fresh user_id none = (none, none)
  create_ws_ticket fresh user_id (some s) =
      (some fresh, some (redis.set (Key.ticket fresh) user_id ws_ticket_ttl s))

  abbrev pub consume_found : String → Option String → S → Option String × Option S
  consume_found ticket none s = (none, some s)
  consume_found ticket (some user_id) s = (some user_id, some (redis.delete (Key.ticket ticket) s))

  unfoldable pub consume_ws_ticket : String → Option S → Option String × Option S
  consume_ws_ticket ticket none = (none, none)
  consume_ws_ticket ticket (some s) = consume_found ticket (redis.get (Key.ticket ticket) s) s

  -- A ticket that was just created stands for its user when it is consumed, and for nobody when it
  -- is consumed again.
  pub create_ws_ticket-consume_ws_ticket :
      (laws : IsRedis redis) (fresh user_id : String) (s : S)
      → let (ticket, client) = create_ws_ticket fresh user_id (some s) in
        let (first, after) = consume_ws_ticket fresh client in
        (ticket ≡ some fresh) × (first ≡ some user_id) × ((consume_ws_ticket fresh after).0 ≡ none)
  unfolding create_ws_ticket consume_ws_ticket
  create_ws_ticket-consume_ws_ticket laws fresh user_id s =
      let held = laws.get-set (Key.ticket fresh) user_id 59 s in
      let gone =
        laws.get-delete (Key.ticket fresh) (redis.set (Key.ticket fresh) user_id ws_ticket_ttl s) in
      rw held (refl, refl, rw gone refl)
