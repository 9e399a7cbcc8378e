-- ===== src/Notifications/Worker/Message/Queue.antt =====
-- What the worker handles: the messages of the queue, what it publishes and replies, its configuration
-- and the outside code, for app/apis/notifications/worker/consumer.py.
use family_inventory.Prelude.{ℕ, String, Bool, Option, none, some, str_eq, if◌then◌else◌}
use family_inventory.Prelude.Integers.{ℤ}
use family_inventory.Notifications.Headers.{Headers, Value, text, null}
use family_inventory.Notifications.Errors.{Exception, ExceptionClass}
use family_inventory.Notifications.Result.{Result}
use family_inventory.Notifications.Ingest.{Database}

-- what the worker reads of an IncomingMessage
pub record Message : Type 0 where
  pub body : String
  pub routing_key : Option String
  pub headers : Headers
  pub content_type : Option String
  pub message_id : Option String
  pub correlation_id : Option String

pub data Exchange : Type 0 where
  dlx retry : Exchange

-- `exchange.publish(aio_pika.Message(..), routing_key=..)`
pub record Publication : Type 0 where
  pub exchange : Exchange
  pub routing_key : String
  pub message : Message

pub data Reply : Type 0 where
  ack requeue : Reply

-- what is read of WorkerConfig
pub record WorkerConfig : Type 0 where
  pub dlq_routing_key : String
  pub retry_rk_30s : String
  pub max_retries : ℕ
  pub use_broker_retries : Bool

-- The JSON of a body, the fields of an object, `a in b` for texts, `int(v)`, and whether a
-- publication raises.
pub record Outside : Type 0 where
  pub loads : String → Result Value
  pub fields : Value → Option Headers
  pub mentions : String → String → Bool
  pub to_int : Value → Option ℤ
  pub publish : Publication → Option Exception

-- What a message leads to: the database, what was published, and the reply to the queue.
pub record Outcome : Type 0 where
  pub database : Database
  pub published : Option Publication
  pub reply : Reply

abbrev pub or_empty : Option String → String
or_empty none = ""
or_empty (some s) = s

abbrev pub or_null : Option String → Value
or_null none = null
or_null (some s) = text s

-- `x or "application/json"`
abbrev pub or_json : Option String → String
or_json none = "application/json"
or_json (some s) = if str_eq s "" then "application/json" else s

abbrev pub no_such_attribute : Exception
no_such_attribute = record {
  exception_class = ExceptionClass.other_error;
  type_name = "AttributeError";
  message = "object has no attribute 'get'";
}

abbrev pub not_a_mapping : Exception
not_a_mapping = record {
  exception_class = ExceptionClass.type_error;
  type_name = "TypeError";
  message = "object is not a mapping";
}
