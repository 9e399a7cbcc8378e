-- ===== src/Notifications/Worker/Message.antt =====
-- One message of the queue: `NotificationWorker.on_message`, `_is_unprocessable`,
-- `_get_retry_count`, `_send_to_dlq` and `_publish_retry` of
-- app/apis/notifications/worker/consumer.py. Reading JSON, the text tests of Python and the broker
-- are parameters; `ack` and `reject` return.
pub mod Queue
use Prim.Native.String.{◌++◌ as append}
use family_inventory.Prelude.{
  ℕ, ◌+◌, String, Bool, true, ◌||◌, Option, none, some, List, [], ◌∷◌, ltb, str_eq, if◌then◌else◌,
}
use family_inventory.Prelude.Integers.{ℤ, pos, succ, is_above}
use family_inventory.Notifications.Headers
use family_inventory.Notifications.Headers.{
  Headers, Value, text, null, int, is_truthy, or_else, setdefault, put, merge,
}
use family_inventory.Notifications.Errors.{Exception, ExceptionClass}
use family_inventory.Notifications.Result.{Result, ok, err, ◌>>=◌}
use family_inventory.Notifications.Delivery.{
  Deliveries, DeliverySendResult, finalize_delivery_results,
}
use family_inventory.Notifications.Delivery.Send.{
  Senders, send_claimed_deliveries, build_failure_results_for_claimed,
}
use family_inventory.Notifications.Ingest.Upsert.{Defaults}
use family_inventory.Notifications.Ingest.{Texts, Database}
use family_inventory.Notifications.Worker.Prepare.{Worker, prepare_event_deliveries}
pub use family_inventory.Notifications.Worker.Message.Queue.{
  Message, Exchange, Publication, Reply, WorkerConfig, Outside, Outcome, or_empty, or_null, or_json,
  no_such_attribute, not_a_mapping, dlx, retry, ack, requeue,
}

abbrev pub amqp_headers : Message → Headers
amqp_headers m =
    setdefault "correlation_id" (or_null m.correlation_id)
      (setdefault "message_id" (or_null m.message_id) m.headers)

-- The topic: the original routing key of a message that was retried, or its own.
unfoldable pub topic_of : Message → Headers → Value
topic_of m headers =
    or_else (Headers.get "x-original-routing-key" headers) (text (or_empty m.routing_key))

unfoldable pub send_to_dlq : WorkerConfig → Message → String → Publication
send_to_dlq cfg m reason = record {
  exchange = Exchange.dlx;
  routing_key = cfg.dlq_routing_key;
  message = record m {
    routing_key = some cfg.dlq_routing_key;
    headers =
        setdefault "x-original-routing-key" (text (or_empty m.routing_key))
          (put "x-dlq-reason" (text reason) m.headers);
    content_type = some (or_json m.content_type);
  };
}

unfoldable pub retry_headers : Message → ℤ → Headers → Headers
retry_headers m n headers =
    let original =
      if Headers.contains "x-original-routing-key" headers
      then Headers.get "x-original-routing-key" headers
      else text (or_empty m.routing_key) in
    put "x-retry-count" (int n) (put "x-original-routing-key" original headers)

unfoldable pub publish_retry : WorkerConfig → Message → Headers → Publication
publish_retry cfg m headers = record {
  exchange = Exchange.retry;
  routing_key = cfg.retry_rk_30s;
  message = record m {
    routing_key = some cfg.retry_rk_30s;
    headers = headers;
    content_type = some (or_json m.content_type);
  };
}

abbrev pub put_back : Database → Outcome
put_back db = record { database = db; published = none; reply = Reply.requeue }

-- The results of the sending, or a failure of each delivery and the error to raise.
unfoldable pub concluded :
    (ℕ → ℕ)
    → Deliveries
    → Result (List DeliverySendResult)
    → List DeliverySendResult × Option Exception
concluded clock claimed (ok results) = (results, none)
concluded clock claimed (err exc) = (build_failure_results_for_claimed exc clock claimed, some exc)

-- `topic` as the text that ingest takes
abbrev pub topic_text : Texts → Value → String
topic_text x (text s) = s
topic_text x v = x.str v

module _ (o : Outside) where
  unfoldable pub is_unprocessable : Exception → Bool
  is_unprocessable exc = elim exc.exception_class [
    | ExceptionClass.unprocessable_message ↦ true
    | ExceptionClass.value_error ↦ true
    | ExceptionClass.type_error ↦ true
    | _ ↦
        o.mentions "UndefinedColumnError" exc.message
        || o.mentions "UndefinedTableError" exc.message
        || o.mentions "invalid input value for enum" exc.message
  ]

  unfoldable pub get_retry_count : Message → ℤ
  get_retry_count m =
      if Headers.contains "x-retry-count" m.headers
      then elim (o.to_int (Headers.get "x-retry-count" m.headers)) [ some n ↦ n | none ↦ pos 0 ]
      else pos 0

  unfoldable pub object_of : Exception → Value → Result Headers
  object_of exc v = elim (o.fields v) [ some h ↦ ok h | none ↦ err exc ]

  -- The lines before the transaction: the payload, and the headers with the topic.
  unfoldable pub read_message : Message → Result (Value × Headers)
  read_message m = do
    raw ← o.loads m.body
    object ← object_of no_such_attribute raw
    let envelope = Headers.get "headers" object
    envelope_headers ← if is_truthy envelope then object_of not_a_mapping envelope else ok []
    let headers = merge envelope_headers (amqp_headers m)
    ok (
      or_else (Headers.get "payload" object) raw,
      setdefault "x-original-routing-key" (topic_of m headers) headers,
    )

  -- Publish, then acknowledge; put back into the queue if the publication raises.
  unfoldable pub forward : Publication → Database → Outcome
  forward p db = elim (o.publish p) [
    | none ↦ record { database = db; published = some p; reply = Reply.ack }
    | some exc ↦ record { database = db; published = none; reply = Reply.requeue }
  ]

  -- The except branch. `headers` is unbound if the error came before it was assigned; reading it
  -- then raises inside the inner try, which puts the message back.
  unfoldable pub on_error : WorkerConfig → Message → Option Headers → Exception → Database → Outcome
  on_error cfg m headers exc db =
      let n = succ (get_retry_count m) in
      if is_unprocessable exc
      then forward
          (send_to_dlq cfg m
            (append "unprocessable_message: " (append exc.type_name (append ": " exc.message))))
          db
      else if is_above cfg.max_retries n
      then forward (send_to_dlq cfg m (append "max_retries_exceeded: " exc.type_name)) db
      else if cfg.use_broker_retries
      then elim headers [
        | some h ↦ forward (publish_retry cfg m (retry_headers m n h)) db
        | none ↦ put_back db
      ]
      else put_back db

  module _ (x : Texts) (g : Defaults) (senders : Senders) (clock : ℕ → ℕ) (w : Worker) where
    -- Steps 1 to 3 of the try: the database that is committed, and what was raised.
    unfoldable pub process : Message → Value → Headers → Database → Database × Option Exception
    process m payload headers db =
        elim (do
          object ← object_of no_such_attribute payload
          prepare_event_deliveries x g (topic_text x (topic_of m headers)) object headers w db) [
            | err exc ↦ (db, some exc)
            | ok (db', batch) ↦ elim batch.tasks [
              | [] ↦ (db', none)
              | ◌∷◌ d ds ↦
                  let (results, send_exc) = concluded clock batch.tasks (
                    ok (
                      send_claimed_deliveries senders clock batch.subject batch.message headers
                        batch.tasks)) in
                  (
                    record db' {
                      deliveries = (finalize_delivery_results w.worker_id results db'.deliveries).0;
                    },
                    send_exc,
                  )
            ]
          ]

    -- the end of the try, or the except branch
    unfoldable pub answer : WorkerConfig → Message → Headers → Database × Option Exception → Outcome
    answer cfg m headers (db, none) = record { database = db; published = none; reply = Reply.ack }
    answer cfg m headers (db, some exc) = on_error cfg m (some headers) exc db

    unfoldable pub on_message : WorkerConfig → Message → Database → Outcome
    on_message cfg m db = elim (read_message m) [
      | err exc ↦ on_error cfg m none exc db
      | ok (payload, headers) ↦ answer cfg m headers (process m payload headers db)
    ]
