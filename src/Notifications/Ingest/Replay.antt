-- ===== src/Notifications/Ingest/Replay.antt =====
-- The same message handled again: `handle_inventory_event` of
-- app/apis/notifications/services/ingest.py, which the broker may deliver more than once.
use family_inventory.Prelude.{
  ◌≡◌, refl, String, Bool, true, List, [], ◌∷◌, arith, exists, All, Bool-cases, inl, inr, some,
}
use text.Mathlib.TextPositions.{eq_refl}
use family_inventory.Notifications.Types.{channel_eq_refl, recipient_type_eq_refl}
use family_inventory.Notifications.Headers.{Headers}
use family_inventory.Notifications.Result.{ok, Result-cases}
use family_inventory.Notifications.Delivery.{Deliveries, NotificationDelivery}
use family_inventory.Notifications.Subscription.{list_enabled_for_topic}
use family_inventory.Notifications.Ingest.Upsert.{
  Defaults, DeliveryRow, upsert, insert_missing, new_delivery, same_target, has_duplicate,
}
use family_inventory.Notifications.Ingest.{
  Texts, Database, NotificationEvent, delivery_rows, read_id, insert_event, handle_inventory_event,
  subject_of, message_of,
}

new_delivery-same_target :
    (g : Defaults) (r : DeliveryRow) → same_target r (new_delivery g r) ≡ true
unfolding new_delivery
new_delivery-same_target g r =
    ground (
      arith,
      channel_eq_refl r.channel,
      recipient_type_eq_refl r.recipient_type,
      eq_refl r.recipient,
    )

exists-insert_missing :
    (p : NotificationDelivery → Bool) (g : Defaults) (rs : List DeliveryRow) (t : Deliveries)
    → exists p t ≡ true
    → exists p (insert_missing g rs t) ≡ true
unfolding insert_missing
exists-insert_missing p g [] t h = h
exists-insert_missing p g (r ∷ rs) t h = exists-insert_missing p g rs _ (ground (arith, h))

All-insert_missing :
    (g : Defaults) (rs : List DeliveryRow) (t : Deliveries)
    → All (λ r. exists (same_target r) (insert_missing g rs t) ≡ true) rs
unfolding insert_missing
All-insert_missing g [] t = tt
All-insert_missing g (r ∷ rs) t = (
  exists-insert_missing (same_target r) g rs _ (ground (arith, new_delivery-same_target g r)),
  All-insert_missing g rs _,
)

insert_missing_none :
    (g : Defaults) (rs : List DeliveryRow) (t : Deliveries)
    → All (λ r. exists (same_target r) t ≡ true) rs
    → insert_missing g rs t ≡ t
unfolding insert_missing
insert_missing_none g [] t h = refl
insert_missing_none g (r ∷ rs) t h = rw h.0 (insert_missing_none g rs t h.1)

insert_event-insert_event :
    (e : NotificationEvent) (t : List NotificationEvent)
    → insert_event e (insert_event e t) ≡ insert_event e t
unfolding insert_event
insert_event-insert_event e t = ground arith

upsert-upsert :
    (g h : Defaults) (rs : List DeliveryRow) (t u : Deliveries)
    → upsert g rs t ≡ ok u
    → upsert h rs u ≡ ok u
unfolding upsert
upsert-upsert g h rs t u e = elim (Bool-cases (has_duplicate rs)) [
  | inl d ↦ cc (e, d)
  | inr d ↦
      let stays : insert_missing g rs t ≡ u = cc (e, d) in
      rw (d, ← stays, insert_missing_none h rs (insert_missing g rs t) (All-insert_missing g rs t))
]

-- If handling an inventory event returned a database, handling it again on that database returns
-- the same one, whatever ids and times the database would give to new rows.
pub replay_same :
    (x : Texts) (g h : Defaults) (topic : String) (payload : Headers) (db db' : Database)
    → handle_inventory_event x g topic payload db ≡ ok db'
    → handle_inventory_event x h topic payload db' ≡ ok db'
unfolding handle_inventory_event
replay_same x g h topic payload db db' e = elim (Result-cases (read_id x "event_id" payload)) [
  | inr (b, n) ↦ cc (e, n)
  | inl (i, n) ↦ elim (Result-cases (read_id x "home_id" payload)) [
    | inr (b, m) ↦ cc (e, n, m)
    | inl (j, m) ↦
        elim (Result-cases (
          upsert g (delivery_rows x i db.users (list_enabled_for_topic j topic db.subscriptions))
            db.deliveries)) [
              | inr (b, u) ↦ cc (e, n, m, u)
              | inl (t, u) ↦
                  let e0 : NotificationEvent = record {
                    id = i;
                    source = "inventory";
                    event_type = topic;
                    subject = some (subject_of x topic payload);
                    message = message_of x topic payload;
                  } in
                  let stays : (record db { events = insert_event e0 db.events; deliveries = t })
                      ≡ db' =
                    cc (e, n, m, u) in
                  rw
                    (
                      ← stays,
                      n,
                      m,
                      upsert-upsert g h _ db.deliveries t u,
                      insert_event-insert_event e0 db.events,
                    )
                    refl
            ]
  ]
]
