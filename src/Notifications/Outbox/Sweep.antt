-- ===== src/Notifications/Outbox/Sweep.antt =====
-- One sweep of the outbox: `sweep_outbox_once` of app/apis/notifications/worker/sweeper.py.
use family_inventory.Prelude.{ℕ, ◌+◌, String, Option, none, some, [], ◌∷◌, map, if◌then◌else◌}
use family_inventory.Notifications.Headers
use family_inventory.Notifications.Headers.{Headers, Value, text, is_truthy, or_else, setdefault}
use family_inventory.Notifications.Errors.{Exception, error_text}
use family_inventory.Notifications.Delivery.{next_retry_at}
use family_inventory.Notifications.Outbox.{
  NotificationOutbox, Outbox, StatusWord, literal, SendClaim, claim_for_send, OutboxResult,
  finalize_results,
}

-- app/apis/notifications/brokers.py
pub record EventEnvelope : Type 0 where
  pub topic : String
  pub key : Option String
  pub payload : Headers
  pub headers : Headers

-- `broker.publish`: returns, or raises. The first argument says which call it is: the id of the row.
abbrev pub Broker : Type 0
Broker = ℕ → EventEnvelope → Option Exception

-- `str` of an id and of a value
module _ (str_id : ℕ → String) (str : Value → String) where
  -- the headers with the stable keys that the worker reads
  unfoldable pub stable_headers : NotificationOutbox → Headers
  stable_headers r = setdefault "x-original-topic" (text r.topic) (
      setdefault "x-original-routing-key" (text r.topic) (
        setdefault "routing_key" (text r.topic) (
          setdefault "topic" (text r.topic) (
            setdefault "x-event-id" (text (str_id r.event_id))
              (setdefault "event_id" (text (str_id r.event_id)) r.headers)))))

  -- `headers.get("x-event-key") or headers.get("correlation_id") or None`, as a text
  unfoldable pub event_key : Headers → Option String
  event_key h =
      let k = or_else (Headers.get "x-event-key" h) (Headers.get "correlation_id" h) in
      if is_truthy k then some (str k) else none

  -- `{k: str(v) for k, v in headers.items() if v is not None}`
  unfoldable pub as_texts : Headers → Headers
  as_texts [] = []
  as_texts ((k, Value.null) ∷ h) = as_texts h
  as_texts ((k, v) ∷ h) = (k, text (str v)) ∷ as_texts h

  unfoldable pub envelope : NotificationOutbox → EventEnvelope
  envelope r =
      let headers = stable_headers r in
      record {
        topic = r.topic;
        key = event_key headers;
        payload = r.payload;
        headers = as_texts headers;
      }

  module _ (broker : Broker) (clock : ℕ → ℕ) where
    -- one turn of the loop over the claimed rows
    unfoldable pub publish_row : NotificationOutbox → OutboxResult
    publish_row r = elim (broker r.id (envelope r)) [
      | none ↦ record {
        outbox_id = r.id;
        status = literal StatusWord.sent;
        last_error = none;
        next_retry_at = none;
      }
      | some exc ↦ record {
        outbox_id = r.id;
        status = literal StatusWord.failed;
        last_error = some (error_text exc);
        next_retry_at = some (next_retry_at (clock r.id) r.attempt_count);
      }
    ]

    -- `published`
    unfoldable pub count_published : Outbox → ℕ
    count_published [] = 0
    count_published (r ∷ rs) =
        elim (broker r.id (envelope r)) [ none ↦ 1 | some exc ↦ 0 ] + count_published rs

    -- The outbox afterwards, and the number of rows published.
    unfoldable pub sweep_outbox_once : SendClaim → Outbox → Outbox × ℕ
    sweep_outbox_once c t =
        let (t', rows) = claim_for_send c t in
        (finalize_results (map publish_row rows) t', count_published rows)
