-- ===== src/Notifications/Ingest/Upsert.antt =====
-- INSERT of delivery rows with a conflict clause on uq_delivery_per_target: the event, the channel,
-- the type of the recipient and the recipient (app/apis/notifications/models.py). ON CONFLICT DO
-- UPDATE refuses a command that would touch one row twice; DO NOTHING does not.
use family_inventory.Prelude.{
  ℕ, String, Bool, false, ◌&&◌, ◌||◌, none, List, [], ◌∷◌, ◌==◌, str_eq, if◌then◌else◌, exists,
}
use family_inventory.Notifications.Types.{
  NotificationChannel, NotificationRecipientType, DeliveryStatus, channel_eq, recipient_type_eq,
}
use family_inventory.Notifications.Errors.{Exception, ExceptionClass}
use family_inventory.Notifications.Result.{Result, ok, err}
use family_inventory.Notifications.Delivery.{NotificationDelivery, Deliveries}

-- an entry of `delivery_rows`, whose status is PENDING
pub record DeliveryRow : Type 0 where
  pub event_id : ℕ
  pub channel : NotificationChannel
  pub recipient_type : NotificationRecipientType
  pub recipient : String

abbrev pub same_target : DeliveryRow → NotificationDelivery → Bool
same_target r d =
    r.event_id == d.event_id
    && (channel_eq r.channel d.channel
        && (recipient_type_eq r.recipient_type d.recipient_type && str_eq r.recipient d.recipient))

abbrev pub same_row : DeliveryRow → DeliveryRow → Bool
same_row r s =
    r.event_id == s.event_id
    && (channel_eq r.channel s.channel
        && (recipient_type_eq r.recipient_type s.recipient_type && str_eq r.recipient s.recipient))

-- What the database gives a new row: an id and the time.
pub record Defaults : Type 0 where
  pub new_id : DeliveryRow → ℕ
  pub created_at : ℕ

unfoldable pub new_delivery : Defaults → DeliveryRow → NotificationDelivery
new_delivery g r = record {
  id = g.new_id r;
  event_id = r.event_id;
  recipient_type = r.recipient_type;
  recipient = r.recipient;
  channel = r.channel;
  status = DeliveryStatus.pending;
  attempt_count = 0;
  max_attempts = 5;
  next_retry_at = none;
  last_attempt_at = none;
  last_error = none;
  context = [];
  locked_by = none;
  locked_at = none;
  lock_expires_at = none;
  created_at = g.created_at;
}

-- Each row whose target is not there yet.
unfoldable pub insert_missing : Defaults → List DeliveryRow → Deliveries → Deliveries
insert_missing g [] t = t
insert_missing g (r ∷ rs) t =
    insert_missing g rs (if exists (same_target r) t then t else new_delivery g r ∷ t)

unfoldable pub has_duplicate : List DeliveryRow → Bool
has_duplicate [] = false
has_duplicate (r ∷ rs) = exists (same_row r) rs || has_duplicate rs

abbrev pub cardinality_violation : Exception
cardinality_violation = record {
  exception_class = ExceptionClass.other_error;
  type_name = "ProgrammingError";
  message = "ON CONFLICT DO UPDATE command cannot affect row a second time";
}

-- ON CONFLICT DO UPDATE of updated_at, which is not modelled.
unfoldable pub upsert : Defaults → List DeliveryRow → Deliveries → Result Deliveries
upsert g rs t = if has_duplicate rs then err cardinality_violation else ok (insert_missing g rs t)
