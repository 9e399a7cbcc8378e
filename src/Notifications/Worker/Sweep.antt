-- ===== src/Notifications/Worker/Sweep.antt =====
-- One sweep of the deliveries: `sweep_once` and `_fetch_retry_event_ids` of
-- app/apis/notifications/worker/sweeper.py. A UUID is a number, so event ids are ordered.
pub mod Releases
use Prim.Native.String.{◌++◌ as append}
use family_inventory.Prelude.{
  ℕ, ◌+◌, String, Bool, true, false, not, ◌&&◌, ◌||◌, Option, none, some, List, [], ◌∷◌, ◌++◌, map,
  ltb, leb, ◌==◌, is_none, if◌then◌else◌, take, select, sort_by, str_eq,
}
use family_inventory.Prelude.Table
use family_inventory.Notifications.Types.{NotificationChannel, channel_value, is_failed, is_sending}
use family_inventory.Notifications.Headers.{Headers, text}
use family_inventory.Notifications.Errors.{Exception, ExceptionClass}
use family_inventory.Notifications.Delivery.{
  NotificationDelivery, Deliveries, Claim, DeliverySendResult, due_by, past,
  claim_deliveries_to_send, finalize_delivery_results,
}
use family_inventory.Notifications.Delivery.Send.{Senders, send_one, with_topic, failure_result}
use family_inventory.Notifications.Ingest.{NotificationEvent, Database}

-- the WHERE of `_fetch_retry_event_ids`
unfoldable pub is_retryable : ℕ → NotificationDelivery → Bool
is_retryable now d =
    ltb d.attempt_count d.max_attempts
    && ((is_failed d.status && (is_none d.next_retry_at || due_by d.next_retry_at now))
        || (is_sending d.status && (not (is_none d.lock_expires_at) && past d.lock_expires_at now)))

-- DISTINCT of a sorted list
unfoldable pub distinct : List ℕ → List ℕ
distinct [] = []
distinct (i ∷ []) = i ∷ []
distinct (i ∷ j ∷ l) = let rest = distinct (j ∷ l) in if i == j then rest else i ∷ rest

unfoldable pub fetch_retry_event_ids : ℕ → ℕ → Deliveries → List ℕ
fetch_retry_event_ids now limit t =
    take limit (distinct (sort_by leb (map (λ d. d.event_id) (select (is_retryable now) t))))

-- `d.channel in (IN_APP, PUSH)`
abbrev pub is_in_app : NotificationDelivery → Bool
is_in_app d = elim d.channel [
  | NotificationChannel.in_app ↦ true
  | NotificationChannel.push ↦ true
  | _ ↦ false
]

unfoldable pub should_not_be_here : NotificationDelivery → Exception
should_not_be_here d = record {
  exception_class = ExceptionClass.value_error;
  type_name = "ValueError";
  message =
      append "Delivery channel "
        (append (channel_value d.channel) " should not be in notification_deliveries");
}

-- What a sweep is run with: the worker, the limits, the times and the locked rows of each claim.
pub record Sweep : Type 0 where
  pub now : ℕ
  pub worker_id : ℕ
  pub max_events : ℕ
  pub claim_limit : ℕ
  pub claim_now : ℕ → ℕ
  pub locked : ℕ → ℕ → Bool

unfoldable pub claim_of : Sweep → ℕ → Claim
claim_of s i = record {
  event_id = i;
  now = s.claim_now i;
  worker_id = s.worker_id;
  claim_limit = s.claim_limit;
  locked = s.locked i;
}

abbrev pub or_unknown : String → String
or_unknown s = if str_eq s "" then "unknown" else s

abbrev pub or_blank : Option String → String
or_blank none = ""
or_blank (some s) = s

-- `ClaimedDelivery(..)`: without the context of the row
abbrev pub without_context : NotificationDelivery → NotificationDelivery
without_context d = record d { context = [] }

module _ (str_id : ℕ → String) (senders : Senders) (clock : ℕ → ℕ) where
  unfoldable pub base_headers : NotificationEvent → Headers
  base_headers e =
      ("event_id", text (str_id e.id))
      ∷ ("x-event-id", text (str_id e.id))
      ∷ ("topic", text (or_unknown e.event_type))
      ∷ ("routing_key", text (or_unknown e.event_type))
      ∷ ("x-original-routing-key", text (or_unknown e.event_type))
      ∷ ("source", text (or_unknown e.source))
      ∷ []

  -- the result of a claimed row: a failure for IN_APP and PUSH, which are not sent
  unfoldable pub sweep_result : NotificationEvent → NotificationDelivery → DeliverySendResult
  sweep_result e d =
      let c = without_context d in
      if is_in_app c
      then failure_result (should_not_be_here c) clock c
      else send_one senders clock (or_blank e.subject) e.message (with_topic (base_headers e)) c

  -- the results in their order: what was sent, and then what was skipped
  unfoldable pub sweep_results : NotificationEvent → Deliveries → List DeliverySendResult
  sweep_results e claimed =
      map (sweep_result e) (select (λ d. not (is_in_app d)) claimed)
      ++ map (sweep_result e) (select is_in_app claimed)

  -- the rest of the turn after the claim: the database, and 1 if the event was processed
  unfoldable pub finish_event :
      Sweep → NotificationEvent → Deliveries → Deliveries → Database → Database × ℕ
  finish_event s e t [] db = (record db { deliveries = t }, 0)
  finish_event s e t (d ∷ ds) db = (
    record db {
      deliveries = (finalize_delivery_results s.worker_id (sweep_results e (d ∷ ds)) t).0;
    },
    1,
  )

  -- one turn of the loop
  unfoldable pub sweep_event : Sweep → ℕ → Database → Database × ℕ
  sweep_event s i db = elim (Table.get (λ (e : NotificationEvent). e.id) i db.events) [
    | none ↦ (db, 0)
    | some e ↦
        let (t, claimed) = claim_deliveries_to_send (claim_of s i) db.deliveries in
        finish_event s e t claimed db
  ]

  unfoldable pub sweep_events : Sweep → List ℕ → Database → Database × ℕ
  sweep_events s [] db = (db, 0)
  sweep_events s (i ∷ is) db =
      let (db', n) = sweep_event s i db in let (db'', k) = sweep_events s is db' in (db'', n + k)

  unfoldable pub sweep_once : Sweep → Database → Database × ℕ
  sweep_once s db = sweep_events s (fetch_retry_event_ids s.now s.max_events db.deliveries) db
