-- ===== src/NotificationService/Reading.antt =====
-- Counts, lists and marks of notifications (backend/app/services/notifications.py,
-- backend/app/routers/notifications.py).
use crypto_exchange_pro.Prelude.{
  ℕ, ◌+◌, ◌≡◌, refl, ap, Bool, true, false, if◌then◌else◌, some, List, [], ◌∷◌, ◌==◌, select,
  length, map, take, drop, reverse, arith,
}
use crypto_exchange_pro.Models.{Notification}
use crypto_exchange_pro.Session.{Db, ok}
use crypto_exchange_pro.NotificationService.{
  owned_by, is_unread, mark, mark_own, mark_all_read, mark_read, find_notification,
  write_notification, unread_count, list_notifications,
}

none_unread :
    (u : ℕ) (ns : List Notification) → length (select (is_unread u) (map (mark_own u) ns)) ≡ 0
none_unread u [] = refl
none_unread u (n ∷ ns) = ground (arith, none_unread u ns)

others_kept :
    (u v : ℕ) (ns : List Notification)
    → (v == u) ≡ false
    → select (owned_by v) (map (mark_own u) ns) ≡ select (owned_by v) ns
others_kept u v [] h = refl
others_kept u v (n ∷ ns) h = ground (arith, others_kept u v ns h)

-- The user's notifications as read ones, and the others as they are.
abbrev pub seen : ℕ → Notification → Notification
seen u n = if n.user_id == u then mark n else n

mark_own-seen : (u : ℕ) (n : Notification) → mark_own u n ≡ seen u n
mark_own-seen u n = go (n.user_id == u) n.is_read refl refl
  where
    go : (b c : Bool) → (n.user_id == u) ≡ b → n.is_read ≡ c → mark_own u n ≡ seen u n
    go false c d e = rw d refl
    go true true d e = rw (d, e) refl
    go true false d e = rw (d, e) refl

all_seen : (u : ℕ) (ns : List Notification) → map (mark_own u) ns ≡ map (seen u) ns
all_seen u [] = refl
all_seen u (n ∷ ns) = rw (mark_own-seen u n, all_seen u ns) refl

-- Marking all of a user's notifications returns how many were unread, keeps every notification, with
-- the user's as read ones, leaves the user none that are unread, and another user the same list.
pub mark_all_read_lem :
    (u v limit offset : ℕ) (db : Db)
    → (v == u) ≡ false
    → let (r, db') = mark_all_read u db in
      (r ≡ (unread_count u db).0)
      × (db'.notifications ≡ map (seen u) db.notifications)
      × ((unread_count u db').0 ≡ ok 0)
      × ((list_notifications v limit offset db').0 ≡ (list_notifications v limit offset db).0)
unfolding mark_all_read unread_count list_notifications
mark_all_read_lem u v limit offset db h = (
  refl,
  all_seen u db.notifications,
  ap ok (none_unread u db.notifications),
  ap (λ ns. ok (take limit (drop offset (reverse ns)))) (others_kept u v db.notifications h),
)

one_less :
    (u i : ℕ) (ns : List Notification) (n : Notification)
    → find_notification u i ns ≡ some n
    → n.is_read ≡ false
    → length (select (is_unread u) (write_notification u i ns)) + 1
      ≡ length (select (is_unread u) ns)
unfolding find_notification write_notification
one_less u i [] n e h = absurd (cc)
one_less u i (x ∷ ns) n e h = ground (arith, one_less u i ns n)

-- Marking a user's unread notification returns it as read, and the user has one unread
-- notification less.
pub mark_read_lem :
    (u i : ℕ) (db : Db) (n : Notification)
    → find_notification u i db.notifications ≡ some n
    → n.is_read ≡ false
    → let (r, db') = mark_read u i db in
      (r ≡ ok (some (mark n)))
      × (length (select (is_unread u) db'.notifications) + 1
          ≡ length (select (is_unread u) db.notifications))
unfolding mark_read
mark_read_lem u i db n e h = rw (e, h) (refl, one_less u i db.notifications n e h)
