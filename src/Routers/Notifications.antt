-- ===== src/Routers/Notifications.antt =====
-- backend/app/routers/notifications.py: none of its endpoints commits.
use crypto_exchange_pro.Prelude.{ℕ}
use crypto_exchange_pro.Models.{Notification}
use crypto_exchange_pro.Session.{Action, Error, ◌>>=◌, or_raise}
use crypto_exchange_pro.NotificationService.{mark_read, mark_all_read}
use crypto_exchange_pro.Routers.Transaction.{answers}

unfoldable pub read_all : ℕ → Action ℕ
unfolding answers
read_all user_id = answers (mark_all_read user_id)

unfoldable pub read_notification : ℕ → ℕ → Action Notification
unfolding answers
read_notification user_id i =
    answers (do or_raise (← mark_read user_id i) Error.notification_not_found)
