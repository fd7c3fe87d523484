-- ===== src/Websocket/Notifications.antt =====
-- The socket of notifications (backend/app/routers/ws.py, lines 164 to 200): one round after another, each on
-- the tables as they are then.
use crypto_exchange_pro.Prelude.{ℕ, List, [], ◌∷◌, ◌++◌, if◌then◌else◌}
use crypto_exchange_pro.Models.{Notification}
use crypto_exchange_pro.Session.{Db, Result, ok, err}
use crypto_exchange_pro.Tables.Orders.{contains}
use crypto_exchange_pro.NotificationService.{list_notifications, unread_count}

pub data Message : Type 0 where
  notification_init : Message
  notification : Notification → Message
  unread : ℕ → Message

abbrev pub items_or : {A : Type 0} → A → Result A → A
items_or other (ok a) = a
items_or other (err e) = other

-- The 30 newest notifications.
abbrev pub listed : ℕ → Db → List Notification
listed user_id db = items_or [] (list_notifications user_id 30 0 db).0

-- The loop over the items: what is sent, and `sent_ids` after it.
unfoldable pub send_new : List Notification → List ℕ → List Message × List ℕ
send_new [] sent = ([], sent)
send_new (n ∷ ns) sent =
    let rest = send_new ns sent in
    let (messages, sent') = send_new ns (n.id ∷ sent) in
    if contains n.id sent then rest else (notification n ∷ messages, sent')

unfoldable pub notify_round : ℕ → Db → List ℕ → List Message × List ℕ
notify_round user_id db sent =
    let (messages, sent') = send_new (listed user_id db) sent in
    (messages ++ unread (items_or 0 (unread_count user_id db).0) ∷ [], sent')

unfoldable pub notify_rounds : ℕ → List Db → List ℕ → List Message
notify_rounds user_id [] sent = []
notify_rounds user_id (db ∷ dbs) sent =
    let (messages, sent') = notify_round user_id db sent in
    messages ++ notify_rounds user_id dbs sent'

unfoldable pub ws_notifications : ℕ → List Db → List Message
ws_notifications user_id dbs = notification_init ∷ notify_rounds user_id dbs []
