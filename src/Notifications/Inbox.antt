-- ===== src/Notifications/Inbox.antt =====
-- The inbox of a user: app/apis/notifications/models.py (InAppNotification), services/inbox.py, and the
-- senders of worker/channels.py that need no other service (LogSender, InAppSender).
pub mod Stored
pub mod Reading
use Prim.Native.String.{◌++◌}
use family_inventory.Prelude.{
  ℕ, String, Bool, true, false, not, ◌&&◌, Option, none, some, List, [], ◌∷◌, leb, ◌==◌,
  if◌then◌else◌, is_none, select, sort_by, take, drop, length,
}
use family_inventory.Prelude.Table
use family_inventory.Notifications.Headers.{Headers, Value, text, get, or_else, is_truthy}
use family_inventory.Notifications.Errors.{Exception, ExceptionClass}
use family_inventory.Notifications.Result.{Result, ok, err, ◌>>=◌, ◌>>◌}
use family_inventory.Notifications.Ingest.{bad_uuid}
use family_inventory.Homes.Members.{find, require, required}

pub record InAppNotification : Type 0 where
  pub id : ℕ
  pub event_id : ℕ
  pub user_id : ℕ
  pub home_id : ℕ
  pub subject : Option String
  pub message : String
  pub read_at : Option ℕ
  pub created_at : ℕ

abbrev pub Inbox : Type 0
Inbox = List InAppNotification

abbrev pub key : InAppNotification → ℕ
key r = r.id

abbrev pub in_home : Option ℕ → InAppNotification → Bool
in_home none r = true
in_home (some h) r = r.home_id == h

-- the WHERE of `list_inbox`
unfoldable pub is_listed : ℕ → Option ℕ → Bool → InAppNotification → Bool
is_listed user_id home_id unread_only r =
    r.user_id == user_id && (in_home home_id r && (if unread_only then is_none r.read_at else true))

-- `list_inbox`
unfoldable pub list_inbox : ℕ → Option ℕ → Bool → ℕ → ℕ → Inbox → Inbox
unfolding is_listed
list_inbox user_id home_id unread_only limit offset t = take limit (
    drop offset (
      sort_by (λ (a b : InAppNotification). leb b.created_at a.created_at)
        (select (is_listed user_id home_id unread_only) t)))

-- `unread_count`
unfoldable pub unread_count : ℕ → Option ℕ → Inbox → ℕ
unread_count user_id home_id t =
    length (select (λ r. r.user_id == user_id && (is_none r.read_at && in_home home_id r)) t)

abbrev pub is_own : ℕ → ℕ → InAppNotification → Bool
is_own user_id notification_id r = r.id == notification_id && r.user_id == user_id

-- `mark_read`: the rows, and whether one was updated.
unfoldable pub mark_read : ℕ → ℕ → ℕ → Inbox → Inbox × Bool
mark_read user_id notification_id now t = (
  Table.update (is_own user_id notification_id) (λ r. record r { read_at = some now }) t,
  not (is_none (find (is_own user_id notification_id) t)),
)

-- `UUID(text)` and `str` of a value, none if the text is no UUID
pub record Texts : Type 0 where
  pub parse_id : String → Option ℕ
  pub str : Value → String

-- A call of a sender; `new_id` is the uuid4 of a row and `now` its time.
pub record Sending : Type 0 where
  pub recipient : String
  pub subject : Option String
  pub message : String
  pub headers : Headers
  pub new_id : ℕ
  pub now : ℕ

-- `LogSender.send`: it writes a log line.
unfoldable pub send_to_log : Sending → Result String
send_to_log c = ok "logged"

abbrev pub bad_recipient : String → Exception
bad_recipient recipient = record {
  exception_class = ExceptionClass.type_error;
  type_name = "TypeError";
  message = "Invalid in-app recipient user_id: " ++ recipient;
}

abbrev pub missing : String → Exception
missing message = record {
  exception_class = ExceptionClass.value_error;
  type_name = "ValueError";
  message = message;
}

abbrev pub event_id_raw : Headers → Value
event_id_raw h =
    or_else (or_else (or_else (get "x-event-id" h) (get "event_id" h)) (get "message_id" h))
      (get "correlation_id" h)

abbrev pub home_id_raw : Headers → Value
home_id_raw h = or_else (get "home_id" h) (get "x-home-id" h)

-- a row is of a user and an event: the columns of uq_inbox_user_event
abbrev pub is_for : ℕ → ℕ → InAppNotification → Bool
is_for event_id user_id r = r.event_id == event_id && r.user_id == user_id

-- INSERT .. ON CONFLICT DO NOTHING
unfoldable pub insert_row : InAppNotification → Inbox → Inbox
insert_row v t = if is_none (find (is_for v.event_id v.user_id) t) then v ∷ t else t

module _ (x : Texts) where
  abbrev pub read_uuid : Value → Result ℕ
  read_uuid v = required bad_uuid (x.parse_id (x.str v))

  -- The checks of a call: the ids of the user, the event and the home.
  unfoldable pub ids_of : String → Headers → Result (ℕ × ℕ × ℕ)
  ids_of recipient h = do
    user_id ← required (bad_recipient recipient) (x.parse_id recipient)
    require (missing "Missing event id in headers (expected x-event-id or event_id)")
        (is_truthy (event_id_raw h))
    require (missing "Missing home_id in headers (expected home_id)") (is_truthy (home_id_raw h))
    event_id ← read_uuid (event_id_raw h)
    home_id ← read_uuid (home_id_raw h)
    ok (user_id, event_id, home_id)

  -- the row of a call
  abbrev pub new_row : Sending → ℕ × ℕ × ℕ → InAppNotification
  new_row c ids = record {
    id = c.new_id;
    event_id = ids.1;
    user_id = ids.0;
    home_id = ids.2;
    subject = c.subject;
    message = c.message;
    read_at = none;
    created_at = c.now;
  }

  -- `InAppSender.send`; what it publishes to the browser is best effort.
  unfoldable pub send_in_app : Sending → Inbox → Result (Inbox × String)
  unfolding insert_row
  send_in_app c t = do
    ids ← ids_of c.recipient c.headers
    ok (insert_row (new_row c ids) t, "stored")
