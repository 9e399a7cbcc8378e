-- ===== src/Notifications/Ingest.antt =====
-- From an event to its deliveries: app/apis/notifications/services/ingest.py, with
-- app/apis/notifications/repository/event_repository.py and what it reads of
-- app/apis/users/models.py. The database is a state; a statement that fails leaves it unchanged,
-- since the caller's transaction is rolled back.
pub mod Upsert
pub mod Replay
pub mod Clash
use Prim.Native.String.{◌++◌ as append}
use family_inventory.Prelude.{
  ℕ, String, Bool, true, false, not, ◌&&◌, ◌||◌, Option, none, some, List, [], ◌∷◌, ◌==◌, str_eq,
  if◌then◌else◌, is_none, exists, select,
}
use family_inventory.Prelude.Table
use family_inventory.Notifications.Types.{
  NotificationChannel, NotificationRecipientType, DeliveryStatus,
}
use family_inventory.Notifications.Headers
use family_inventory.Notifications.Headers.{Headers, Value, text, null}
use family_inventory.Notifications.Errors.{Exception, ExceptionClass}
use family_inventory.Notifications.Result.{Result, ok, err, ◌>>=◌}
use family_inventory.Notifications.Delivery.{Deliveries}
use family_inventory.Notifications.Subscription.{
  NotificationSubscription, Target, list_enabled_for_topic,
}
use family_inventory.Notifications.Ingest.Upsert.{Defaults, DeliveryRow, upsert, insert_missing}

pub record NotificationEvent : Type 0 where
  pub id : ℕ
  pub source : String
  pub event_type : String
  pub subject : Option String
  pub message : String

-- What ingest reads of a user. The model has no phone, so `getattr(user, "phone", None)` is None.
pub record User : Type 0 where
  pub id : ℕ
  pub email : String
  pub is_active : Bool

pub record Database : Type 0 where
  pub events : List NotificationEvent
  pub deliveries : Deliveries
  pub subscriptions : List NotificationSubscription
  pub users : List User

-- `str` of a value and of an id, and `UUID(text)`.
pub record Texts : Type 0 where
  pub str : Value → String
  pub str_id : ℕ → String
  pub parse_id : String → Option ℕ

abbrev pub key_error : String → Exception
key_error k = record {
  exception_class = ExceptionClass.other_error;
  type_name = "KeyError";
  message = k;
}

abbrev pub bad_uuid : Exception
bad_uuid = record {
  exception_class = ExceptionClass.value_error;
  type_name = "ValueError";
  message = "badly formed hexadecimal UUID string";
}

-- `UUID` of a value that is no text asks it for `replace`.
abbrev pub not_text : Exception
not_text = record {
  exception_class = ExceptionClass.other_error;
  type_name = "AttributeError";
  message = "object has no attribute 'replace'";
}

-- a text that `or` passes on: not None and not empty
abbrev pub non_empty : Option String → Option String
non_empty none = none
non_empty (some s) = if str_eq s "" then none else some s

abbrev pub or_text : Option String → Option String → Option String
or_text a b = elim (non_empty a) [ some s ↦ some s | none ↦ b ]

-- `user is None`
unfoldable pub find_user : Option User → Result User
find_user (some user) = ok user
find_user none = err (record {
  exception_class = ExceptionClass.value_error;
  type_name = "ValueError";
  message = "Account email user does not exist";
})

-- the event of a message, inserted unless its id is there already
unfoldable pub insert_event : NotificationEvent → List NotificationEvent → List NotificationEvent
insert_event e t = if Table.has (λ (e : NotificationEvent). e.id) e.id t then t else e ∷ t

-- The driver takes only texts for a text column.
abbrev pub data_error : Exception
data_error = record {
  exception_class = ExceptionClass.other_error;
  type_name = "DataError";
  message = "expected str";
}

abbrev pub not_null : Exception
not_null = record {
  exception_class = ExceptionClass.integrity_error;
  type_name = "IntegrityError";
  message = "null value violates not-null constraint";
}

-- `payload[k]`, as a text column that may be null takes it: None is NULL
unfoldable pub read_nullable : String → Headers → Result (Option String)
read_nullable k payload =
    if Headers.contains k payload
    then elim (Headers.get k payload) [ text s ↦ ok (some s) | null ↦ ok none | _ ↦ err data_error ]
    else err (key_error k)

-- `payload[k]`, as a text column that is NOT NULL takes it
unfoldable pub read_text : String → Headers → Result String
unfolding read_nullable
read_text k payload = do
  value ← read_nullable k payload
  elim value [ some s ↦ ok s | none ↦ err not_null ]

module _ (x : Texts) where
  -- `UUID(payload[k])`
  unfoldable pub read_id : String → Headers → Result ℕ
  read_id k payload =
      if Headers.contains k payload
      then elim (Headers.get k payload) [
        | text s ↦ elim (x.parse_id s) [ some i ↦ ok i | none ↦ err bad_uuid ]
        | _ ↦ err not_text
      ]
      else err (key_error k)

  -- `payload.get("item_name", "Item")`
  unfoldable pub item_name : Headers → String
  item_name payload =
      if Headers.contains "item_name" payload
      then x.str (Headers.get "item_name" payload)
      else "Item"

  unfoldable pub subject_of : String → Headers → String
  subject_of topic payload =
      if str_eq topic "inventory.item.expired"
      then append "Expired: " (item_name payload)
      else append "Expiring soon: " (item_name payload)

  unfoldable pub message_of : String → Headers → String
  message_of topic payload =
      let name = append "'" (append (item_name payload) "'") in
      let expiry = x.str (Headers.get "expiry_date" payload) in
      if str_eq topic "inventory.item.expired"
      then append name (append " is expired (expiry_date=" (append expiry ")."))
      else append name (
          append " is expiring soon (expiry_date=" (
            append expiry
              (append ", days_left=" (append (x.str (Headers.get "days_left" payload)) ")."))))

  -- `_resolve_recipient`
  unfoldable pub resolve_recipient :
      NotificationChannel → User → Target → NotificationRecipientType × Option String
  resolve_recipient NotificationChannel.email user target =
      (NotificationRecipientType.email, or_text target.email (some user.email))
  resolve_recipient NotificationChannel.sms user target =
      (NotificationRecipientType.phone, or_text target.phone none)
  resolve_recipient NotificationChannel.log user target =
      (NotificationRecipientType.log, some "stdout")
  resolve_recipient NotificationChannel.in_app user target =
      (NotificationRecipientType.in_app_user, some (x.str_id user.id))
  resolve_recipient NotificationChannel.push user target =
      (NotificationRecipientType.in_app_user, some (x.str_id user.id))

  -- the row of one subscription, unless its user or its recipient is missing
  unfoldable pub row_for : ℕ → List User → NotificationSubscription → Option DeliveryRow
  row_for event_id users s = elim (Table.get (λ (u : User). u.id) s.user_id users) [
    | none ↦ none
    | some user ↦
        let (recipient_type, recipient) = resolve_recipient s.channel user s.target in
        elim (non_empty recipient) [
          | none ↦ none
          | some r ↦ some (record {
            event_id = event_id;
            channel = s.channel;
            recipient_type = recipient_type;
            recipient = r;
          })
        ]
  ]

  -- the loop over the subscriptions
  unfoldable pub delivery_rows : ℕ → List User → List NotificationSubscription → List DeliveryRow
  delivery_rows event_id users [] = []
  delivery_rows event_id users (s ∷ subs) =
      let rest = delivery_rows event_id users subs in
      elim (row_for event_id users s) [ none ↦ rest | some r ↦ r ∷ rest ]

  module _ (g : Defaults) where
    unfoldable pub handle_inventory_event : String → Headers → Database → Result Database
    handle_inventory_event topic payload db = do
      event_id ← read_id "event_id" payload
      home_id ← read_id "home_id" payload
      let e : NotificationEvent = record {
        id = event_id;
        source = "inventory";
        event_type = topic;
        subject = some (subject_of topic payload);
        message = message_of topic payload;
      }
      let subs = list_enabled_for_topic home_id topic db.subscriptions
      deliveries ← upsert g (delivery_rows event_id db.users subs) db.deliveries
      ok (record db { events = insert_event e db.events; deliveries = deliveries })

    -- ON CONFLICT DO NOTHING of the one row of an account's mail
    unfoldable pub handle_account_email_event : String → Headers → Database → Result Database
    handle_account_email_event topic payload db = do
      event_id ← read_id "event_id" payload
      user_id ← read_id "user_id" payload
      user ← find_user (Table.get (λ (u : User). u.id) user_id db.users)
      subject ← read_nullable "subject" payload
      message ← read_text "message" payload
      let e : NotificationEvent = record {
        id = event_id;
        source = "users";
        event_type = topic;
        subject = subject;
        message = message;
      }
      let db' : Database = record db { events = insert_event e db.events }
      let row : DeliveryRow = record {
        event_id = event_id;
        channel = NotificationChannel.email;
        recipient_type = NotificationRecipientType.email;
        recipient = user.email;
      }
      ok (
          if str_eq topic "users.activation.requested" && user.is_active
          then db'
          else if str_eq topic "users.password_reset.requested" && not user.is_active
          then db'
          else record db' { deliveries = insert_missing g (row ∷ []) db.deliveries })
