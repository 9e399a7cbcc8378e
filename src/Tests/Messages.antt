-- ===== src/Tests/Messages.antt =====
-- Messages of the queue and a sweep, at concrete values.
use family_inventory.Prelude.{
  ℕ, ◌≡◌, refl, String, true, false, Option, none, some, [], ◌∷◌, arith, str_eq, if◌then◌else◌,
}
use family_inventory.Prelude.Integers.{ℤ, pos, succ}
use family_inventory.Notifications.Headers
use family_inventory.Notifications.Headers.{Headers, Value, text, int, other}
use family_inventory.Notifications.Result.{Result, ok}
use family_inventory.Notifications.Delivery.Send.{Senders}
use family_inventory.Notifications.Ingest.Upsert.{Defaults}
use family_inventory.Notifications.Ingest.{
  Texts, Database, key_error, handle_inventory_event, read_id,
}
use family_inventory.Notifications.Worker.Prepare.{
  Worker, prepare_event_deliveries, parse_event_id, ingest_event, is_account_topic,
  ingest_inventory,
}
use family_inventory.Notifications.Worker.Message.{
  Message, Exchange, Publication, Reply, WorkerConfig, Outside, is_unprocessable, get_retry_count,
  read_message, process, on_message, object_of, topic_of, no_such_attribute,
}
use family_inventory.Notifications.Worker.Disposition.{IsSafe, IsHandled, never_lost}
use family_inventory.Notifications.Worker.Retries.{retried}
use family_inventory.Notifications.Worker.Trail.{trail, IsTrail, dead_lettered}
use family_inventory.Notifications.Worker.Sweep.{Sweep, sweep_event, claim_of}
use family_inventory.Notifications.Worker.Sweep.Releases.{IsSwept, sweep_event_releases}
use family_inventory.Notifications.Types.{NotificationChannel, DeliveryStatus}
use family_inventory.Notifications.Delivery.{NotificationDelivery, key, is_claimable, is_ready}
use family_inventory.Prelude.Table
use family_inventory.Notifications.Ingest.{NotificationEvent}
use family_inventory.Tests.Rows.{rows, free, waiting}

-- An object whose home id is missing, and a body that is no object.
abbrev homeless : Value
homeless = other true "{}"

abbrev no_object : Value
no_object = other false "[]"

abbrev fields : Value → Option Headers
fields (other true s) = some (("event_id", text "e") ∷ [])
fields _ = none

abbrev loads : String → Result Value
loads body = if str_eq body "{}" then ok homeless else ok no_object

abbrev to_int : Value → Option ℤ
to_int (int n) = some n
to_int _ = none

abbrev outside : Outside
outside = record {
  loads = loads;
  fields = fields;
  mentions = λ a b. false;
  to_int = to_int;
  publish = λ p. none;
}

abbrev texts : Texts
texts = record { str = λ v. "x"; str_id = λ i. "u"; parse_id = λ s. some 7 }

abbrev defaults : Defaults
defaults = record { new_id = λ r. 40; created_at = 100 }

abbrev senders : Senders
senders c = none

abbrev clock : ℕ → ℕ
clock i = 130

abbrev worker : Worker
worker = record { now = 100; worker_id = 9; claim_limit = 1000; locked = free }

abbrev config : WorkerConfig
config = record {
  dlq_routing_key = "dlq";
  retry_rk_30s = "retry.30s";
  max_retries = 5;
  use_broker_retries = true;
}

-- a message that was tried once
abbrev retried_once : Message
retried_once = record {
  body = "{}";
  routing_key = some "retry.30s";
  headers =
      ("x-retry-count", int (pos 1))
      ∷ ("x-original-routing-key", text "inventory.item.expired")
      ∷ [];
  content_type = none;
  message_id = some "m";
  correlation_id = none;
}

abbrev retried_out : Message
retried_out = record retried_once {
  headers =
      ("x-retry-count", int (pos 5))
      ∷ ("x-original-routing-key", text "inventory.item.expired")
      ∷ [];
}

abbrev array : Message
array = record retried_once { body = "[]" }

abbrev db : Database
db = record {
  events =
      record { id = 7; source = "inventory"; event_type = "t"; subject = none; message = "m" } ∷ [];
  deliveries = rows;
  subscriptions = [];
  users = [];
}

-- the headers that the message is read with
abbrev read_headers : ℕ → Headers
read_headers n =
    ("x-retry-count", int (pos n))
    ∷ ("x-original-routing-key", text "inventory.item.expired")
    ∷ ("message_id", text "m")
    ∷ ("correlation_id", Value.null)
    ∷ []

never_lost_example :
    IsSafe outside retried_once
      (IsHandled outside retried_once texts defaults senders clock worker db)
      (on_message outside texts defaults senders clock worker config retried_once db)
never_lost_example = never_lost outside retried_once texts defaults senders clock worker config db

retried_example :
    let r = on_message outside texts defaults senders clock worker config retried_once db in
    (r.reply ≡ Reply.ack)
    × ((p : Publication) × (r.published ≡ some p)
        × (p.exchange ≡ Exchange.retry)
        × (p.message.body ≡ "{}")
        × (get_retry_count outside p.message ≡ succ (get_retry_count outside retried_once))
        × (Headers.get "x-original-routing-key" p.message.headers
            ≡ Headers.get "x-original-routing-key" (read_headers 1)))
unfolding read_message object_of topic_of process prepare_event_deliveries parse_event_id
    ingest_event is_account_topic ingest_inventory handle_inventory_event read_id is_unprocessable
    get_retry_count
retried_example =
    retried outside (λ n. refl) texts defaults senders clock worker config retried_once db homeless
      (read_headers 1) (key_error "home_id") refl refl refl (λ p. refl) refl (omega arith)

-- Every body is an object whose payload is a text, which no handler can read.
abbrev hollow : Outside
hollow = record outside {
  loads = λ b. ok homeless;
  fields = λ v. elim v [ other b s ↦ some (("payload", text "p") ∷ []) | _ ↦ none ];
}

dead_lettered_example :
    IsTrail hollow texts defaults senders clock worker config
      (λ m. m)
      4
      retried_once
      (trail hollow texts defaults senders clock worker config (λ m. m) 7 retried_once db)
unfolding read_message object_of topic_of process is_unprocessable get_retry_count
dead_lettered_example =
    dead_lettered hollow texts defaults senders clock worker config (λ m. m) (λ n. refl) (λ p. refl)
      (λ m. (refl, refl)) refl 4 2 retried_once db refl
      (λ m d e. (text "p", _, no_such_attribute, refl, refl, refl))

abbrev sweep : Sweep
sweep = record {
  now = 300;
  worker_id = 9;
  max_events = 50;
  claim_limit = 200;
  claim_now = λ i. 301;
  locked = λ i. free;
}

-- An in-app delivery that failed once, and is due.
abbrev in_app_failed : NotificationDelivery
in_app_failed = record waiting {
  channel = NotificationChannel.in_app;
  status = DeliveryStatus.failed;
  attempt_count = 1;
}

abbrev event : NotificationEvent
event = record { id = 7; source = "inventory"; event_type = "t"; subject = none; message = "m" }

abbrev in_app_db : Database
in_app_db = record db { deliveries = in_app_failed ∷ [] }

sweep_event_releases_example :
    IsSwept
      (λ i. "u")
      senders
      clock
      event
      sweep
      7
      in_app_failed
      (Table.get key 1 (sweep_event (λ i. "u") senders clock sweep 7 in_app_db).0.deliveries)
unfolding is_claimable is_ready claim_of
sweep_event_releases_example =
    sweep_event_releases (λ i. "u") senders clock event sweep 7 in_app_db 1 in_app_failed (refl, tt)
      refl (omega arith) refl refl
