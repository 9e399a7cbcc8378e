-- ===== src/Inventory/Expiry.antt =====
-- Publishing an expiry event through the outbox: `InventoryEventFactory.expiry_envelope` of
-- app/apis/inventory/events.py and `InventoryExpiryService` of
-- app/apis/inventory/services/expiry_service.py.
pub mod Published
use Prim.Native.String.{◌++◌ as append}
use family_inventory.Prelude.{
  ℕ, ◌+◌, ◌-◌, String, Bool, true, false, Option, none, some, List, [], ◌∷◌, ◌++◌, leb,
  if◌then◌else◌,
}
use family_inventory.Notifications.Headers
use family_inventory.Notifications.Headers.{Headers, Value, text, is_truthy, or_else, setdefault}
use family_inventory.Notifications.Errors.{Exception, error_text}
use family_inventory.Notifications.Result.{Result, ok, err, ◌>>=◌}
use family_inventory.Notifications.Ingest.{bad_uuid}
use family_inventory.Notifications.Outbox.{
  NotificationOutbox, Outbox, StatusWord, OutboxStatus, literal, ensure, claim_one, update,
}
use family_inventory.Notifications.Outbox.Sweep.{EventEnvelope}
use family_inventory.Inventory.Alerts.{
  InventoryItem, InventoryAlertType, expired, expiring_soon, alert_type_value,
}

-- `str` of an id and of a value, the text of a day, `UUID(text)`, `uuid5(namespace, text)`, the
-- difference of two days as a JSON number, the id of a new row, and the broker.
pub record Outside : Type 0 where
  pub str_id : ℕ → String
  pub str : Value → String
  pub isoformat : ℕ → String
  pub parse_id : String → Option ℕ
  pub uuid5 : String → ℕ
  pub days_between : ℕ → ℕ → Value
  pub new_id : ℕ
  pub publish : EventEnvelope → Option Exception

abbrev pub is_sent : StatusWord → Bool
is_sent StatusWord.sent = true
is_sent _ = false

-- What a call does: the outbox afterwards, and the envelope if it was given to the broker.
pub record Attempt : Type 0 where
  pub outbox : Outbox
  pub tried : Option EventEnvelope

module _ (o : Outside) where
  unfoldable pub event_id_of : InventoryItem → InventoryAlertType → ℕ → ℕ
  event_id_of i alert_type today = o.uuid5 (
      append "inventory:" (
        append (o.str_id i.home_id) (
          append ":" (
            append (o.str_id i.id) (
              append ":"
                (append (alert_type_value alert_type) (append ":" (o.isoformat today))))))))

  -- the fields of the two events
  unfoldable pub event_payload : InventoryItem → InventoryAlertType → ℕ → ℕ → Headers
  event_payload i alert_type today d =
      let common : Headers =
        ("event_id", text (o.str_id (event_id_of i alert_type today)))
        ∷ ("home_id", text (o.str_id i.home_id))
        ∷ ("item_id", text (o.str_id i.id))
        ∷ ("item_name", text i.product_name)
        ∷ ("expiry_date", text (o.isoformat d))
        ∷ [] in
      elim alert_type [
        | expired ↦ common
        | expiring_soon ↦ common ++ (("days_left", o.days_between d today) ∷ [])
      ]

  abbrev pub topic_of : InventoryAlertType → String
  topic_of expired = "inventory.item.expired"
  topic_of expiring_soon = "inventory.item.expiring_soon"

  unfoldable pub expiry_envelope : InventoryItem → InventoryAlertType → ℕ → Option EventEnvelope
  expiry_envelope i alert_type today = elim i.expiry_date [
    | none ↦ none
    | some d ↦ some (record {
      topic = topic_of alert_type;
      key = some (o.str_id i.id);
      payload = event_payload i alert_type today d;
      headers =
          ("source", text "inventory")
          ∷ ("home_id", text (o.str_id i.home_id))
          ∷ ("event_id", text (o.str_id (event_id_of i alert_type today)))
          ∷ [];
    })
  ]

  -- the event id of the producer, or one derived from the item, the type and the day
  unfoldable pub read_event_id : InventoryItem → InventoryAlertType → ℕ → EventEnvelope → Result ℕ
  read_event_id i alert_type today e =
      let raw =
        or_else (Headers.get "event_id" e.payload)
          (or_else (Headers.get "event_id" e.headers) (Headers.get "x-event-id" e.headers)) in
      if is_truthy raw
      then elim (o.parse_id (o.str raw)) [ some id ↦ ok id | none ↦ err bad_uuid ]
      else ok (
          o.uuid5 (
            append "expiry:" (
              append (o.str_id i.id) (
                append ":"
                  (append (alert_type_value alert_type) (append ":" (o.isoformat today)))))))

  abbrev pub set_key : Option String → Headers → Headers
  set_key none h = h
  set_key (some k) h = setdefault "x-event-key" (text k) h

  -- `_apply_context`: an item always has a home.
  unfoldable pub apply_context : EventEnvelope → ℕ → InventoryItem → Headers × Headers
  apply_context e event_id i = (
    setdefault "home_id" (text (o.str_id i.home_id))
        (setdefault "event_id" (text (o.str_id event_id)) e.payload),
    setdefault "x-original-topic" (text e.topic) (
        setdefault "x-original-routing-key" (text e.topic) (
          setdefault "routing_key" (text e.topic) (
            setdefault "topic" (text e.topic) (
              setdefault "source" (text "inventory") (
                setdefault "x-home-id" (text (o.str_id i.home_id)) (
                  setdefault "home_id" (text (o.str_id i.home_id)) (
                    set_key e.key (
                      setdefault "x-event-id" (text (o.str_id event_id))
                        (setdefault "event_id" (text (o.str_id event_id)) e.headers))))))))),
  )

  -- `_build_outbox_row`
  unfoldable pub build_outbox_row : ℕ → ℕ → EventEnvelope → Headers × Headers → NotificationOutbox
  build_outbox_row now event_id e (payload, headers) = record {
    id = o.new_id;
    event_id = event_id;
    topic = e.topic;
    payload = payload;
    headers = headers;
    status = literal StatusWord.pending;
    attempt_count = 0;
    last_error = none;
    next_retry_at = none;
    created_at = now;
  }

  -- `{k: str(v) for k, v in headers.items()}`
  unfoldable pub all_texts : Headers → Headers
  all_texts [] = []
  all_texts ((k, v) ∷ h) = (k, text (o.str v)) ∷ all_texts h

  -- steps 3 and 4: the broker, and the status that follows
  unfoldable pub publish_now : ℕ → ℕ → EventEnvelope → Outbox → Attempt
  publish_now outbox_id now e t = elim (o.publish e) [
    | some exc ↦ record {
      outbox =
          update outbox_id (literal StatusWord.failed) (some (error_text exc)) (some (now + 60)) t;
      tried = some e;
    }
    | none ↦ record {
      outbox = update outbox_id (literal StatusWord.sent) none none t;
      tried = some e;
    }
  ]

  -- the guards on the row that `ensure` found, and step 2
  unfoldable pub publish_row : ℕ → ℕ → EventEnvelope → Outbox → ℕ × OutboxStatus × ℕ → Attempt
  publish_row now max_attempts e t (outbox_id, status, attempt_count) =
      let idle : Attempt = record { outbox = t; tried = none } in
      let (t', claimed) = claim_one outbox_id now max_attempts t in
      if is_sent status.word
      then idle
      else if leb max_attempts attempt_count
      then idle
      else elim claimed [
        | none ↦ record { outbox = t'; tried = none }
        | some n ↦ publish_now outbox_id now e t'
      ]

  -- The call. An error is raised before the outbox is changed.
  unfoldable pub publish_expiry_event :
      InventoryItem → InventoryAlertType → ℕ → ℕ → ℕ → Outbox → Result Attempt
  publish_expiry_event i alert_type today now max_attempts t =
      elim (expiry_envelope i alert_type today) [
        | none ↦ ok (record { outbox = t; tried = none })
        | some e ↦ do
          event_id ← read_event_id i alert_type today e
          let (payload, headers) = apply_context e event_id i
          let (t', row) = ensure (build_outbox_row now event_id e (payload, headers)) t
          let sent : EventEnvelope = record e { payload = payload; headers = all_texts headers }
          ok (publish_row now max_attempts sent t' row)
      ]
