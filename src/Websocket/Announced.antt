-- ===== src/Websocket/Announced.antt =====
-- The notifications that the socket announces (backend/app/routers/ws.py, lines 164 to 200).
use crypto_exchange_pro.Prelude.{
  ℕ, true, false, List, [], ◌∷◌, ◌++◌, ◌≡◌, refl, sym, ap, subst, ◌∙◌, ◌||◌, All, All-mono, arith,
  Bool-cases, inl, inr,
}
use crypto_exchange_pro.Models.{Notification}
use crypto_exchange_pro.Session.{Db}
use crypto_exchange_pro.Tables.Orders.{contains}
use crypto_exchange_pro.NotificationService.{unread_count}
use crypto_exchange_pro.Websocket.Notifications.{
  Message, notification_init, notification, unread, items_or, listed, send_new, notify_round,
  notify_rounds, ws_notifications,
}

-- The notifications among the messages.
abbrev pub announced : List Message → List ℕ
announced [] = []
announced (notification_init ∷ ms) = announced ms
announced (notification n ∷ ms) = n.id ∷ announced ms
announced (unread count ∷ ms) = announced ms

-- None of the keys is among the given ones, nor comes twice.
abbrev pub AreNew : List ℕ → List ℕ → Type 0
AreNew sent [] = Unit
AreNew sent (i ∷ is) = (contains i sent ≡ false) × AreNew (i ∷ sent) is

abbrev push : List ℕ → List ℕ → List ℕ
push [] sent = sent
push (i ∷ is) sent = push is (i ∷ sent)

announced-append : (ms ns : List Message) → announced (ms ++ ns) ≡ announced ms ++ announced ns
announced-append [] ns = refl
announced-append (notification_init ∷ ms) ns = announced-append ms ns
announced-append (notification n ∷ ms) ns = ap (◌∷◌ n.id) (announced-append ms ns)
announced-append (unread count ∷ ms) ns = announced-append ms ns

AreNew-append :
    (sent is js : List ℕ) → AreNew sent is → AreNew (push is sent) js → AreNew sent (is ++ js)
AreNew-append sent [] js f g = g
AreNew-append sent (i ∷ is) js f g = (f.0, AreNew-append (i ∷ sent) is js f.1 g)

send_new-push :
    (ns : List Notification) (sent : List ℕ)
    → (send_new ns sent).1 ≡ push (announced (send_new ns sent).0) sent
unfolding send_new
send_new-push [] sent = refl
send_new-push (n ∷ ns) sent = elim (Bool-cases (contains n.id sent)) [
  | inl t ↦ rw t (send_new-push ns sent)
  | inr f ↦ rw f (send_new-push ns (n.id ∷ sent))
]

send_new-AreNew :
    (ns : List Notification) (sent : List ℕ) → AreNew sent (announced (send_new ns sent).0)
unfolding send_new
send_new-AreNew [] sent = tt
send_new-AreNew (n ∷ ns) sent = elim (Bool-cases (contains n.id sent)) [
  | inl t ↦ rw t (send_new-AreNew ns sent)
  | inr f ↦ rw f (f, send_new-AreNew ns (n.id ∷ sent))
]

announced-unread :
    (ms : List Message) (count : ℕ) → announced (ms ++ unread count ∷ []) ≡ announced ms
announced-unread [] count = refl
announced-unread (notification_init ∷ ms) count = announced-unread ms count
announced-unread (notification n ∷ ms) count = ap (◌∷◌ n.id) (announced-unread ms count)
announced-unread (unread k ∷ ms) count = announced-unread ms count

-- A key is among the given ones or the announced ones.
abbrev IsCovered : List ℕ → List ℕ → Notification → Type 0
IsCovered sent is n = contains n.id sent || contains n.id is ≡ true

send_new-covers :
    (ns : List Notification) (sent : List ℕ)
    → All (IsCovered sent (announced (send_new ns sent).0)) ns
unfolding send_new
send_new-covers [] sent = tt
send_new-covers (n ∷ ns) sent = elim (Bool-cases (contains n.id sent)) [
  | inl t ↦
      let same : send_new (n ∷ ns) sent ≡ send_new ns sent = rw t refl in
      subst (λ r. All (IsCovered sent (announced r.0)) (n ∷ ns)) (sym same)
        (rw t refl, send_new-covers ns sent)
  | inr f ↦
      let after = send_new ns (n.id ∷ sent) in
      let is = announced after.0 in
      let new : send_new (n ∷ ns) sent ≡ (notification n ∷ after.0, after.1) = rw f refl in
      let rest =
        All-mono (IsCovered (n.id ∷ sent) is) (IsCovered sent (n.id ∷ is)) ns
          (λ m h. moved n.id m.id sent is h) (send_new-covers ns (n.id ∷ sent)) in
      subst (λ r. All (IsCovered sent (announced r.0)) (n ∷ ns)) (sym new)
        (first n.id sent is, rest)
]
  where
    moved :
        (i j : ℕ) (sent is : List ℕ)
        → contains j (i ∷ sent) || contains j is ≡ true
        → contains j sent || contains j (i ∷ is) ≡ true
    moved i j sent is h = ground (arith, h)

    first : (i : ℕ) (sent is : List ℕ) → contains i sent || contains i (i ∷ is) ≡ true
    first i sent is = ground arith

contains-push :
    (i : ℕ) (is sent : List ℕ) → contains i (push is sent) ≡ contains i is || contains i sent
contains-push i [] sent = refl
contains-push i (j ∷ is) sent = ground (arith, contains-push i is (j ∷ sent))

contains_either : (i : ℕ) (is js : List ℕ) → contains i (is ++ js) ≡ contains i is || contains i js
contains_either i [] js = refl
contains_either i (j ∷ is) js = ground (arith, contains_either i is js)

module _ (user_id : ℕ) where
  abbrev AreCovered : List ℕ → List ℕ → Db → Type 0
  AreCovered sent is db = All (IsCovered sent is) (listed user_id db)

  -- What a first round and the later ones announce.
  rounds_announced :
      (db : Db) (dbs : List Db) (sent : List ℕ)
      → announced (notify_rounds user_id (db ∷ dbs) sent)
        ≡ announced (send_new (listed user_id db) sent).0
          ++ announced (notify_rounds user_id dbs (send_new (listed user_id db) sent).1)
  unfolding notify_rounds notify_round
  rounds_announced db dbs sent =
      announced-append
        ((send_new (listed user_id db) sent).0
          ++ unread (items_or 0 (unread_count user_id db).0) ∷ [])
        (notify_rounds user_id dbs (send_new (listed user_id db) sent).1)
      ∙ ap (λ is. is ++ announced (notify_rounds user_id dbs (send_new (listed user_id db) sent).1))
          (announced-unread (send_new (listed user_id db) sent).0
            (items_or 0 (unread_count user_id db).0))

  notify_rounds-AreNew :
      (dbs : List Db) (sent : List ℕ) → AreNew sent (announced (notify_rounds user_id dbs sent))
  unfolding notify_rounds
  notify_rounds-AreNew [] sent = tt
  notify_rounds-AreNew (db ∷ dbs) sent =
      let ns = listed user_id db in
      let (messages, sent') = send_new ns sent in
      let rest =
        subst (λ s. AreNew s (announced (notify_rounds user_id dbs sent'))) (send_new-push ns sent)
          (notify_rounds-AreNew dbs sent') in
      subst (AreNew sent) (sym (rounds_announced db dbs sent))
        (AreNew-append sent (announced messages) _ (send_new-AreNew ns sent) rest)

  notify_rounds-AreCovered :
      (dbs : List Db) (sent : List ℕ)
      → All (AreCovered sent (announced (notify_rounds user_id dbs sent))) dbs
  notify_rounds-AreCovered [] sent = tt
  notify_rounds-AreCovered (db ∷ dbs) sent =
      let ns = listed user_id db in
      let (messages, sent') = send_new ns sent in
      let later = announced (notify_rounds user_id dbs sent') in
      let now = announced messages in
      let total = now ++ later in
      subst (λ is. All (AreCovered sent is) (db ∷ dbs)) (sym (rounds_announced db dbs sent))
        (
          All-mono (IsCovered sent now) (IsCovered sent total) ns
              (λ n h. ground (arith, contains_either n.id now later, h)) (send_new-covers ns sent),
          All-mono (AreCovered sent' later) (AreCovered sent total) dbs
              (λ d all.
                All-mono (IsCovered sent' later) (IsCovered sent total) (listed user_id d)
                  (λ n h. ground (
                    arith,
                    send_new-push ns sent,
                    contains-push n.id now sent,
                    contains_either n.id now later,
                    h,
                  ))
                  all)
              (notify_rounds-AreCovered dbs sent'),
        )

-- However the tables change between the rounds, the socket announces each notification that a round
-- lists, and none twice.
pub ws_notifications_lem :
    (user_id : ℕ) (dbs : List Db)
    → let is = announced (ws_notifications user_id dbs) in
      AreNew [] is
      × All (λ db. All (λ (n : Notification). contains n.id is ≡ true) (listed user_id db)) dbs
unfolding ws_notifications
ws_notifications_lem user_id dbs =
    (notify_rounds-AreNew user_id dbs [], notify_rounds-AreCovered user_id dbs [])
