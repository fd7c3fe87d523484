-- ===== src/NotificationService.antt =====
-- backend/app/services/notifications.py: listing, marking and counting a user's notifications.
pub mod Reading
use crypto_exchange_pro.Prelude.{
  ℕ, Bool, true, Option, none, some, List, [], ◌∷◌, ◌&&◌, not, ◌==◌, if◌then◌else◌, select, length,
  map, take, drop, reverse,
}
use crypto_exchange_pro.Models.{Notification}
use crypto_exchange_pro.Session.{Action, ◌>>=◌, ◌>>◌, pure, gets, modify}

abbrev pub owned_by : ℕ → Notification → Bool
owned_by user_id n = n.user_id == user_id

abbrev pub is_unread : ℕ → Notification → Bool
is_unread user_id n = n.user_id == user_id && not n.is_read

-- `order_by(created_at.desc())` on rows that are inserted in the order of the clock.
unfoldable pub list_notifications : ℕ → ℕ → ℕ → Action (List Notification)
list_notifications user_id limit offset =
    gets (λ db. take limit (drop offset (reverse (select (owned_by user_id) db.notifications))))

unfoldable pub find_notification : ℕ → ℕ → List Notification → Option Notification
find_notification user_id i [] = none
find_notification user_id i (n ∷ ns) =
    if n.id == i && n.user_id == user_id then some n else find_notification user_id i ns

abbrev pub mark : Notification → Notification
mark n = record n { is_read = true }

unfoldable pub write_notification : ℕ → ℕ → List Notification → List Notification
write_notification user_id i [] = []
write_notification user_id i (n ∷ ns) =
    if n.id == i && n.user_id == user_id then mark n ∷ ns else n ∷ write_notification user_id i ns

abbrev pub mark_found : ℕ → ℕ → Option Notification → Action (Option Notification)
mark_found user_id i none = pure none
mark_found user_id i (some n) = if n.is_read then pure (some n) else (do
  modify (λ db. record db { notifications = write_notification user_id i db.notifications })
  pure (some (mark n)))

unfoldable pub mark_read : ℕ → ℕ → Action (Option Notification)
unfolding find_notification write_notification
mark_read user_id i = do
  mark_found user_id i (← gets (λ db. find_notification user_id i db.notifications))

abbrev pub mark_own : ℕ → Notification → Notification
mark_own user_id n = if is_unread user_id n then mark n else n

unfoldable pub mark_all_read : ℕ → Action ℕ
mark_all_read user_id = do
  unread ← gets (λ db. length (select (is_unread user_id) db.notifications))
  modify (λ db. record db { notifications = map (mark_own user_id) db.notifications })
  pure unread

unfoldable pub unread_count : ℕ → Action ℕ
unread_count user_id = gets (λ db. length (select (is_unread user_id) db.notifications))
