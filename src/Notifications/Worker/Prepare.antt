-- ===== src/Notifications/Worker/Prepare.antt =====
-- The transaction that turns a message into claimed deliveries: `prepare_event_deliveries` of
-- app/apis/notifications/worker/handlers.py. The headers that it completes are a copy that ingest
-- does not read and that is not returned, so they do not appear.
use family_inventory.Prelude.{
  Option, some, none, ℕ, String, Bool, ◌||◌, none, some, str_eq, if◌then◌else◌,
}
use family_inventory.Notifications.Headers
use family_inventory.Notifications.Headers.{Headers, is_truthy, or_else}
use family_inventory.Notifications.Errors.{Exception, ExceptionClass}
use family_inventory.Notifications.Result.{Result, ok, err, ◌>>=◌}
use family_inventory.Notifications.Delivery.{Deliveries, Claim, claim_deliveries_to_send}
use family_inventory.Notifications.Ingest.Upsert.{Defaults}
use family_inventory.Notifications.Ingest.{
  Texts, Database, bad_uuid, read_nullable, read_text, subject_of, message_of,
  handle_inventory_event, handle_account_email_event,
}

pub record EventWorkBatch : Type 0 where
  pub event_id : ℕ
  pub subject : String
  pub message : String
  pub tasks : Deliveries

-- Who claims, and when: the rest of the claim's parameters.
pub record Worker : Type 0 where
  pub now : ℕ
  pub worker_id : ℕ
  pub claim_limit : ℕ
  pub locked : ℕ → Bool

abbrev pub missing_event_id : Exception
missing_event_id = record {
  exception_class = ExceptionClass.value_error;
  type_name = "ValueError";
  message = "Missing event_id (payload.event_id or headers.message_id/correlation_id)";
}

module _ (x : Texts) where
  -- `_parse_event_id`
  unfoldable pub parse_event_id : Headers → Headers → Result ℕ
  parse_event_id payload headers =
      let raw =
        or_else (Headers.get "event_id" payload)
          (or_else (Headers.get "message_id" headers) (Headers.get "correlation_id" headers)) in
      if is_truthy raw
      then elim (x.parse_id (x.str raw)) [ some i ↦ ok i | none ↦ err bad_uuid ]
      else err missing_event_id

  unfoldable pub is_account_topic : String → Bool
  is_account_topic topic =
      str_eq topic "users.activation.requested" || str_eq topic "users.password_reset.requested"

  abbrev or_blank : Option String → String
  or_blank none = ""
  or_blank (some s) = s

  module _ (g : Defaults) where
    -- The two branches of step 1: the database after ingest, the subject and the message. A subject
    -- None goes to the senders as no text.
    unfoldable pub ingest_account :
        String → Headers → Database → Result (Database × String × String)
    ingest_account topic payload db = do
      db' ← handle_account_email_event x g topic payload db
      subject ← read_nullable "subject" payload
      message ← read_text "message" payload
      ok (db', or_blank subject, message)

    unfoldable pub ingest_inventory :
        String → Headers → Database → Result (Database × String × String)
    ingest_inventory topic payload db = do
      db' ← handle_inventory_event x g topic payload db
      ok (db', subject_of x topic payload, message_of x topic payload)

    unfoldable pub ingest_event : String → Headers → Database → Result (Database × String × String)
    ingest_event topic payload db =
        if is_account_topic topic
        then ingest_account topic payload db
        else ingest_inventory topic payload db

    unfoldable pub prepare_event_deliveries :
        String → Headers → Headers → Worker → Database → Result (Database × EventWorkBatch)
    prepare_event_deliveries topic payload headers w db = do
      event_id ← parse_event_id payload headers
      (db', subject, message) ← ingest_event topic payload db
      let c : Claim = record {
        event_id = event_id;
        now = w.now;
        worker_id = w.worker_id;
        claim_limit = w.claim_limit;
        locked = w.locked;
      }
      let (t, tasks) = claim_deliveries_to_send c db'.deliveries
      let batch : EventWorkBatch = record {
        event_id = event_id;
        subject = subject;
        message = message;
        tasks = tasks;
      }
      ok (record db' { deliveries = t }, batch)
