-- ===== src/Tests/Ingests.antt =====
-- Ingest at concrete subscriptions.
use family_inventory.Prelude.{◌≡◌, refl, true, none, some, [], ◌∷◌, arith, str_eq, if◌then◌else◌}
use family_inventory.Notifications.Types.{NotificationChannel, NotificationRecipientType}
use family_inventory.Notifications.Headers.{Headers, text}
use family_inventory.Notifications.Result.{ok, err}
use family_inventory.Notifications.Subscription.{
  NotificationSubscription, is_enabled_for, list_enabled_for_topic,
}
use family_inventory.Notifications.Ingest.Upsert.{
  Defaults, DeliveryRow, cardinality_violation, new_delivery, insert_missing, upsert, has_duplicate,
}
use family_inventory.Notifications.Ingest.{
  Texts, User, Database, read_id, row_for, delivery_rows, resolve_recipient, insert_event,
  item_name, subject_of, message_of, handle_inventory_event,
}
use family_inventory.Notifications.Ingest.Clash.{yields, shared_target_fails}
use family_inventory.Notifications.Ingest.Replay.{replay_same}

-- The event's id is 7 and the home's is 3.
abbrev texts : Texts
texts = record {
  str = λ v. "x";
  str_id = λ i. "u";
  parse_id = λ s. if str_eq s "e" then some 7 else some 3;
}

abbrev payload : Headers
payload = ("event_id", text "e") ∷ ("home_id", text "h") ∷ []

abbrev defaults : Defaults
defaults = record { new_id = λ r. 40; created_at = 100 }

abbrev ann : User
ann = record { id = 1; email = "ann@b.c"; is_active = true }

abbrev bob : User
bob = record { id = 2; email = "bob@b.c"; is_active = true }

-- both members of a home log its expired items
abbrev ann_logs : NotificationSubscription
ann_logs = record {
  id = 21;
  home_id = 3;
  user_id = 1;
  topic = "inventory.item.expired";
  channel = NotificationChannel.log;
  enabled = true;
  target = record { email = none; phone = none };
}

abbrev bob_logs : NotificationSubscription
bob_logs = record ann_logs { id = 22; user_id = 2 }

abbrev db : Database
db = record {
  events = [];
  deliveries = [];
  subscriptions = ann_logs ∷ bob_logs ∷ [];
  users = ann ∷ bob ∷ [];
}

abbrev stdout : DeliveryRow
stdout = record {
  event_id = 7;
  channel = NotificationChannel.log;
  recipient_type = NotificationRecipientType.log;
  recipient = "stdout";
}

shared_target_fails_example :
    handle_inventory_event texts defaults "inventory.item.expired" payload db
    ≡ err cardinality_violation
unfolding read_id is_enabled_for yields row_for resolve_recipient
shared_target_fails_example =
    shared_target_fails texts defaults "inventory.item.expired" payload db 7 3 stdout refl refl
      (omega arith)

-- only one of them logs
abbrev db_one : Database
db_one = record db { subscriptions = ann_logs ∷ [] }

abbrev ingested : Database
unfolding new_delivery subject_of message_of item_name
ingested = record db_one {
  events =
      record {
        id = 7;
        source = "inventory";
        event_type = "inventory.item.expired";
        subject = some "Expired: Item";
        message = "'Item' is expired (expiry_date=x).";
      }
      ∷ [];
  deliveries = new_delivery defaults stdout ∷ [];
}

replay_same_example :
    handle_inventory_event texts
      (record defaults { created_at = 200 })
      "inventory.item.expired"
      payload
      ingested
    ≡ ok ingested
unfolding handle_inventory_event read_id list_enabled_for_topic is_enabled_for delivery_rows row_for
    resolve_recipient upsert has_duplicate insert_missing insert_event item_name subject_of
    message_of ingested
replay_same_example =
    replay_same texts defaults (record defaults { created_at = 200 }) "inventory.item.expired"
      payload db_one ingested refl
