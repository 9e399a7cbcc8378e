-- ===== src/Notifications/Delivery/Send.antt =====
-- Sending what was claimed: `send_claimed_deliveries` and `build_failure_results_for_claimed` of
-- app/apis/notifications/worker/handlers.py. The senders are the channels' (channels.py): a call
-- returns, or raises. Their first argument says which call it is: the id of the delivery.
use Prim.Native.String.{◌++◌ as append}
use family_inventory.Prelude.{ℕ, String, Option, none, some, List, map, if◌then◌else◌}
use family_inventory.Notifications.Types.{NotificationChannel, DeliveryStatus, channel_value}
use family_inventory.Notifications.Headers
use family_inventory.Notifications.Headers.{
  Headers, Value, text, is_truthy, or_else, setdefault, merge,
}
use family_inventory.Notifications.Errors.{Exception, error_text}
use family_inventory.Notifications.Delivery.{
  NotificationDelivery, Deliveries, DeliverySendResult, next_retry_at,
}

-- recipient, subject, message, headers; `none` if the call returns
abbrev pub Sender : Type 0
Sender = ℕ → String → String → String → Headers → Option Exception

abbrev pub Senders : Type 0
Senders = NotificationChannel → Option Sender

-- `base_headers` with the topic under each of its four keys.
unfoldable pub with_topic : Headers → Headers
with_topic headers =
    let topic = or_else (Headers.get "topic" headers) (
      or_else (Headers.get "routing_key" headers) (
        or_else (Headers.get "x-original-topic" headers)
          (or_else (Headers.get "x-original-routing-key" headers) (text "")))) in
    if is_truthy topic
    then setdefault "x-original-routing-key" topic (
        setdefault "x-original-topic" topic
          (setdefault "routing_key" topic (setdefault "topic" topic headers)))
    else headers

-- `_send_one`. `clock` is the time at which the call for a delivery fails.
unfoldable pub send_one :
    Senders → (ℕ → ℕ) → String → String → Headers → NotificationDelivery → DeliverySendResult
send_one senders clock subject message base_headers d = elim (senders d.channel) [
  | none ↦ record {
    delivery_id = d.id;
    status = DeliveryStatus.failed;
    last_error = some (append "Unsupported channel: " (channel_value d.channel));
    next_retry_at = none;
  }
  | some send ↦ elim (send d.id d.recipient subject message (merge base_headers d.context)) [
    | none ↦ record {
      delivery_id = d.id;
      status = DeliveryStatus.sent;
      last_error = none;
      next_retry_at = none;
    }
    | some exc ↦ record {
      delivery_id = d.id;
      status = DeliveryStatus.failed;
      last_error = some (error_text exc);
      next_retry_at = some (next_retry_at (clock d.id) d.attempt_count);
    }
  ]
]

-- `gather` returns the results in the order of the deliveries.
unfoldable pub send_claimed_deliveries :
    Senders → (ℕ → ℕ) → String → String → Headers → Deliveries → List DeliverySendResult
send_claimed_deliveries senders clock subject message headers claimed =
    map (send_one senders clock subject message (with_topic headers)) claimed

unfoldable pub failure_result : Exception → (ℕ → ℕ) → NotificationDelivery → DeliverySendResult
failure_result exc clock d = record {
  delivery_id = d.id;
  status = DeliveryStatus.failed;
  last_error = some (error_text exc);
  next_retry_at = some (next_retry_at (clock d.id) d.attempt_count);
}

unfoldable pub build_failure_results_for_claimed :
    Exception → (ℕ → ℕ) → Deliveries → List DeliverySendResult
build_failure_results_for_claimed exc clock claimed = map (failure_result exc clock) claimed
