-- ===== src/Notifications/Worker/Retries.antt =====
-- How often a message is tried: the except branch of `on_message`
-- (app/apis/notifications/worker/consumer.py).
use family_inventory.Prelude.{
  inl, inr, ℕ, ◌≡◌, ◌∙◌, refl, true, false, none, some, if◌then◌else◌, [],
}
use family_inventory.Prelude.Integers.{ℤ, succ, is_above, is_above-succ, IsBelow}
use family_inventory.Notifications.Headers
use family_inventory.Notifications.Headers.{
  Headers, Value, int, text, contains-setdefault, setdefault, merge, put, is_truthy, put, get-put,
  contains-put, get-put_ne,
}
use family_inventory.Notifications.Errors.{Exception}
use family_inventory.Notifications.Result.{ok, Result-cases}
use family_inventory.Notifications.Delivery.Send.{Senders}
use family_inventory.Notifications.Ingest.Upsert.{Defaults}
use family_inventory.Notifications.Ingest.{Texts, Database}
use family_inventory.Notifications.Worker.Prepare.{Worker}
use family_inventory.Notifications.Worker.Message.{
  Message, Exchange, Publication, Reply, WorkerConfig, Outside, is_unprocessable, object_of,
  no_such_attribute, not_a_mapping, amqp_headers, or_empty, get_retry_count, topic_of, read_message,
  send_to_dlq, publish_retry, retry_headers, forward, on_error, process, answer, on_message,
}

module _ (o : Outside) (reads : (n : ℤ) → o.to_int (int n) ≡ some n) where
  -- The count that a retry carries is read back.
  count_read_back :
      (cfg : WorkerConfig) (m : Message) (n : ℤ) (h : Headers)
      → get_retry_count o (publish_retry cfg m (retry_headers m n h)).message ≡ n
  unfolding get_retry_count publish_retry retry_headers
  count_read_back cfg m n h =
      rw
        (
          get_retry_count,
          contains-put "x-retry-count" (int n) _,
          get-put "x-retry-count" (int n) _,
          reads n,
        )
        refl

  original_kept :
      (m : Message) (n : ℤ) (h : Headers)
      → Headers.contains "x-original-routing-key" h ≡ true
      → Headers.get "x-original-routing-key" (retry_headers m n h)
        ≡ Headers.get "x-original-routing-key" h
  unfolding retry_headers
  original_kept m n h e =
      let kept : (if Headers.contains "x-original-routing-key" h
            then Headers.get "x-original-routing-key" h
            else text (or_empty m.routing_key))
          ≡ Headers.get "x-original-routing-key" h =
        rw e refl in
      get-put_ne "x-original-routing-key" "x-retry-count" (int n)
        (put "x-original-routing-key"
          (if Headers.contains "x-original-routing-key" h
            then Headers.get "x-original-routing-key" h
            else text (or_empty m.routing_key))
          h)
        refl
      ∙ (get-put "x-original-routing-key" _ h ∙ kept)

  read_message-contains :
      (m : Message) (payload : Value) (h : Headers)
      → read_message o m ≡ ok (payload, h)
      → Headers.contains "x-original-routing-key" h ≡ true
  unfolding read_message
  read_message-contains m payload h e = elim (Result-cases (o.loads m.body)) [
    | inr (x, r) ↦ cc (e, r)
    | inl (raw, r) ↦ elim (Result-cases (object_of o no_such_attribute raw)) [
      | inr (x, f) ↦ cc (e, r, f)
      | inl (object, f) ↦
          let envelope = Headers.get "headers" object in
          elim (Result-cases
            (if is_truthy envelope then object_of o not_a_mapping envelope else ok [])) [
              | inr (x, v) ↦ cc (e, r, f, v)
              | inl (inner, v) ↦
                  let headers = merge inner (amqp_headers m) in
                  let made : setdefault "x-original-routing-key" (topic_of m headers) headers ≡ h =
                    cc (e, r, f, v) in
                  rw (← made)
                    (contains-setdefault "x-original-routing-key" (topic_of m headers) headers)
            ]
    ]
  ]

  module _ (x : Texts) (g : Defaults) (senders : Senders) (clock : ℕ → ℕ) (w : Worker)
      (cfg : WorkerConfig) (m : Message) (db : Database) (payload : Value) (headers : Headers)
      (exc : Exception) (read : read_message o m ≡ ok (payload, headers))
      (raised : (process o x g senders clock w m payload headers db).1 ≡ some exc)
      (processable : is_unprocessable o exc ≡ false)
      (works : (p : Publication) → o.publish p ≡ none) where
    on_message-on_error :
        on_message o x g senders clock w cfg m db
        ≡ on_error o cfg m (some headers) exc (process o x g senders clock w m payload headers db).0
    unfolding on_message answer
    on_message-on_error = rw (read, on_message, raised) refl

    -- If integers are read back from headers, publishing works, the message was read, its
    -- processing raised an error that is not unprocessable, broker retries are enabled and it has
    -- had fewer than max_retries retries, then it is acknowledged, and what is published goes to
    -- the retry exchange with the same body, one more retry and the original routing key.
    pub retried :
        cfg.use_broker_retries ≡ true
        → IsBelow cfg.max_retries (get_retry_count o m)
        → let r = on_message o x g senders clock w cfg m db in
          (r.reply ≡ Reply.ack)
          × ((p : Publication) × (r.published ≡ some p)
              × (p.exchange ≡ Exchange.retry)
              × (p.message.body ≡ m.body)
              × (get_retry_count o p.message ≡ succ (get_retry_count o m))
              × (Headers.get "x-original-routing-key" p.message.headers
                  ≡ Headers.get "x-original-routing-key" headers))
    unfolding on_error forward publish_retry
    retried broker fewer =
        let n = succ (get_retry_count o m) in
        let h = retry_headers m n headers in
        let below : is_above cfg.max_retries n ≡ false =
          is_above-succ cfg.max_retries (get_retry_count o m) fewer in
        rw
          (
            on_message-on_error,
            on_error,
            processable,
            below,
            broker,
            forward,
            works (publish_retry cfg m h),
          )
          (
            refl,
            (
              publish_retry cfg m h,
              refl,
              refl,
              refl,
              count_read_back cfg m n headers,
              original_kept m n headers (read_message-contains m payload headers read),
            ),
          )

    -- At the limit, the message goes to the dead letter exchange.
    pub over_limit :
        is_above cfg.max_retries (succ (get_retry_count o m)) ≡ true
        → let r = on_message o x g senders clock w cfg m db in
          (r.reply ≡ Reply.ack)
          × ((p : Publication) × (r.published ≡ some p)
              × (p.exchange ≡ Exchange.dlx)
              × (p.message.body ≡ m.body))
    unfolding on_error forward send_to_dlq
    over_limit over =
        rw (on_message-on_error, on_error, processable, over, forward, works (send_to_dlq cfg m _))
          (refl, (send_to_dlq cfg m _, refl, refl, refl))
