-- ===== src/Websocket.antt =====
-- backend/app/routers/ws.py: who may connect, what the socket of notifications sends, and the rounds of
-- the socket of prices.
pub mod Notifications
pub mod Announced
pub mod Prices
use text.Mathlib.Text.{◌==◌ as str_eq}
use crypto_exchange_pro.Prelude.{
  ℕ, String, Bool, true, false, Option, none, some, ◌≡◌, refl, if◌then◌else◌, Bool-cases,
  Option-cases, inl, inr,
}
use crypto_exchange_pro.Redis.{Key, Commands, IsRedis}
use crypto_exchange_pro.Auth.{
  User, Payload, Crypto, AuthSettings, World, access, find_user, decode_token, is_token_blacklisted,
}
use crypto_exchange_pro.Auth.Tickets.{consume_found, consume_ws_ticket}

abbrev pub if_active : Option User → Option User
if_active none = none
if_active (some u) = if u.is_active then some u else none

-- A parameter that is not given counts as an empty one.
abbrev pub nonempty : Option String → Option String
nonempty none = none
nonempty (some s) = if str_eq s "" then none else some s

-- `key` is the number for a user's key.
module _ {S : Type 0} (redis : Commands S) (crypto : Crypto) (settings : AuthSettings)
    (key : String → ℕ) where
  abbrev pub user_of_key : Option String → World S → Option User
  user_of_key none w = none
  user_of_key (some user_id) w = if_active (find_user (key user_id) w.users)

  abbrev pub user_of_payload : Option Payload → World S → Option User
  user_of_payload none w = none
  user_of_payload (some p) w =
      if is_token_blacklisted redis crypto settings p.jti w.client
      then none
      else if_active (find_user p.sub w.users)

  abbrev pub by_token : Option String → World S → Option User
  by_token none w = none
  by_token (some token) w = user_of_payload (decode_token redis crypto settings token access) w

  -- A ticket, or else a token.
  abbrev pub by_ticket_or_token : Option String → Option String → World S → Option User × World S
  by_ticket_or_token none token w = (by_token token w, w)
  by_ticket_or_token (some ticket) token w =
      let (user_id, client) = consume_ws_ticket redis ticket w.client in
      (user_of_key user_id w, record w { client = client })

  unfoldable pub authenticate_ws : Option String → Option String → World S → Option User × World S
  authenticate_ws ticket token w = by_ticket_or_token (nonempty ticket) (nonempty token) w

  consumed :
      (laws : IsRedis redis) (ticket : String) (client : Option S)
      → (consume_ws_ticket redis ticket (consume_ws_ticket redis ticket client).1).0 ≡ none
  unfolding consume_ws_ticket
  consumed laws ticket none = refl
  consumed laws ticket (some s) = elim (Option-cases (redis.get (Key.ticket ticket) s)) [
    | inl e ↦ rw e (rw e refl)
    | inr (user_id, e) ↦ let gone = laws.get-delete (Key.ticket ticket) s in rw e (rw gone refl)
  ]

  -- A ticket that is not empty lets nobody in a second time, whoever it was for.
  pub authenticate_ws_again :
      (laws : IsRedis redis) (ticket : String) (token : Option String) (w : World S)
      → str_eq ticket "" ≡ false
      → let w' = (authenticate_ws (some ticket) token w).1 in
        (authenticate_ws (some ticket) token w').0 ≡ none
  unfolding authenticate_ws
  authenticate_ws_again laws ticket token w f =
      let gone = consumed laws ticket w.client in rw f (rw gone refl)
