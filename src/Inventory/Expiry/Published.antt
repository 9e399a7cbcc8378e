-- ===== src/Inventory/Expiry/Published.antt =====
-- What becomes of an expiry event: `publish_expiry_event` of
-- app/apis/inventory/services/expiry_service.py.
use family_inventory.Prelude.{
  ℕ, ◌+◌, ◌≤◌, ◌<◌, ◌≡◌, ◌⊎◌, ◌∙◌, ap, refl, true, false, none, some, [], ◌∷◌, leb, arith, inl, inr,
  str_eq, Bool-cases, Option-cases,
}
use family_inventory.Prelude.Table
use family_inventory.Notifications.Headers.{text, get}
use family_inventory.Notifications.Errors.{error_text}
use family_inventory.Notifications.Result.{ok}
use family_inventory.Notifications.Outbox.{
  NotificationOutbox, Outbox, StatusWord, OutboxStatus, literal, key, event_key, ensure, claim_one,
  is_claimable_one, mark_sending, is_open,
}
use family_inventory.Notifications.Outbox.Claims.{update-get, claim_one-get}
use family_inventory.Notifications.Outbox.Ensure.{ensure-new, ensure-old}
use family_inventory.Notifications.Outbox.Sweep.{EventEnvelope}
use family_inventory.Inventory.Alerts.{InventoryItem, InventoryAlertType, expired, expiring_soon}
use family_inventory.Inventory.Expiry.{
  Outside, Attempt, event_id_of, event_payload, is_sent, topic_of, expiry_envelope, read_event_id,
  apply_context, build_outbox_row, all_texts, publish_now, publish_row, publish_expiry_event,
}

payload-event_id :
    (o : Outside) (i : InventoryItem) (alert_type : InventoryAlertType) (today d : ℕ)
    → get "event_id" (event_payload o i alert_type today d)
      ≡ text (o.str_id (event_id_of o i alert_type today))
unfolding event_payload
payload-event_id o i expired today d = refl
payload-event_id o i expiring_soon today d = refl

-- The row of a claim and of what follows it.
pub publish_row_claimed :
    (o : Outside) (now max_attempts : ℕ) (e : EventEnvelope) (t : Outbox) (r : NotificationOutbox)
    → Table.get key r.id t ≡ some r
    → is_claimable_one r.id now max_attempts r ≡ true
    → publish_row o now max_attempts e t (r.id, r.status, r.attempt_count)
      ≡ publish_now o r.id now e (claim_one r.id now max_attempts t).0
unfolding publish_row claim_one is_claimable_one is_open
publish_row_claimed o now m e t r here c =
    let fresh : is_sent r.status.word ≡ false = ground (arith, c) in
    let room : leb m r.attempt_count ≡ false = ground (arith, c) in
    rw (publish_row, fresh, room, here, c) refl

-- A row that is sent or being sent, or that has used up its attempts.
abbrev pub IsClosed : ℕ → NotificationOutbox → Type 0
IsClosed max_attempts r =
    (r.status.word ≡ StatusWord.sent)
    ⊎ ((r.status.word ≡ StatusWord.sending) ⊎ (max_attempts ≤ r.attempt_count))

closed-is_claimable_one :
    (now m : ℕ) (r : NotificationOutbox) → IsClosed m r → is_claimable_one r.id now m r ≡ false
unfolding is_claimable_one is_open
closed-is_claimable_one now m r c = ground arith

publish_row_idle :
    (o : Outside) (now m : ℕ) (e : EventEnvelope) (t : Outbox) (r : NotificationOutbox)
    → Table.get key r.id t ≡ some r
    → IsClosed m r
    → let a = publish_row o now m e t (r.id, r.status, r.attempt_count) in
      (a.tried ≡ none) × (Table.get key r.id a.outbox ≡ some r)
unfolding publish_row claim_one
publish_row_idle o now m e t r here c =
    let shut = closed-is_claimable_one now m r c in
    elim (Bool-cases (is_sent r.status.word)) [
      | inl s ↦ rw (publish_row, s) (refl, here)
      | inr s ↦ elim (Bool-cases (leb m r.attempt_count)) [
        | inl l ↦ rw (publish_row, s, l) (refl, here)
        | inr l ↦
            rw (publish_row, s, l, here, shut)
              (refl, claim_one-get r.id now m t r.id r here ∙ rw shut refl)
      ]
    ]

module _ (o : Outside) (ids : (i : ℕ) → o.parse_id (o.str (text (o.str_id i))) ≡ some i)
    (shown : (i : ℕ) → str_eq (o.str_id i) "" ≡ false) (i : InventoryItem)
    (alert_type : InventoryAlertType) (today now max_attempts d : ℕ)
    (expires : i.expiry_date ≡ some d) where
  -- the envelope of the item
  abbrev pub made : EventEnvelope
  made = record {
    topic = topic_of o alert_type;
    key = some (o.str_id i.id);
    payload = event_payload o i alert_type today d;
    headers =
        ("source", text "inventory")
        ∷ ("home_id", text (o.str_id i.home_id))
        ∷ ("event_id", text (o.str_id (event_id_of o i alert_type today)))
        ∷ [];
  }

  made-event_id : read_event_id o i alert_type today made ≡ ok (event_id_of o i alert_type today)
  unfolding read_event_id event_payload
  made-event_id =
      rw
        (
          read_event_id,
          payload-event_id o i alert_type today d,
          shown (event_id_of o i alert_type today),
          shown (event_id_of o i alert_type today),
          ids (event_id_of o i alert_type today),
        )
        refl

  abbrev pub row : NotificationOutbox
  row =
      build_outbox_row o now (event_id_of o i alert_type today) made
        (apply_context o made (event_id_of o i alert_type today) i)

  -- the envelope that the broker is given
  abbrev pub sent : EventEnvelope
  sent =
      let context = apply_context o made (event_id_of o i alert_type today) i in
      record made { payload = context.0; headers = all_texts o context.1 }

  published-row :
      (t t' : Outbox) (r : ℕ × OutboxStatus × ℕ)
      → ensure row t ≡ (t', r)
      → publish_expiry_event o i alert_type today now max_attempts t
        ≡ ok (publish_row o now max_attempts sent t' r)
  unfolding publish_expiry_event expiry_envelope event_payload event_id_of apply_context
  published-row t t' r e = rw (publish_expiry_event, expires, made-event_id, e) refl

  -- The status, the error and the retry time that the broker's answer leads to.
  abbrev pub answered : NotificationOutbox
  answered = elim (o.publish sent) [
    | none ↦ record row {
      status = literal StatusWord.sent;
      attempt_count = 1;
      last_error = none;
      next_retry_at = none;
    }
    | some exc ↦ record row {
      status = literal StatusWord.failed;
      attempt_count = 1;
      last_error = some (error_text exc);
      next_retry_at = some (now + 60);
    }
  ]

  publish_now-answered :
      (t : Outbox)
      → Table.get key row.id t ≡ some (mark_sending row)
      → ((publish_now o row.id now sent t).tried ≡ some sent)
        × (Table.get key row.id (publish_now o row.id now sent t).outbox ≡ some answered)
  unfolding publish_now mark_sending build_outbox_row
  publish_now-answered t h = elim (Option-cases (o.publish sent)) [
    | inl e ↦
        rw (publish_now, e)
          (
            refl,
            update-get row.id (literal StatusWord.sent) none none t row.id (mark_sending row) h
                ∙ ground arith,
          )
    | inr (exc, e) ↦
        rw (publish_now, e)
          (
            refl,
            update-get row.id (literal StatusWord.failed) (some (error_text exc)) (some (now + 60))
                  t row.id (mark_sending row) h
                ∙ ground arith,
          )
  ]

  self_get : (t : Outbox) → Table.get key row.id (row ∷ t) ≡ some row
  self_get t = ground arith

  row-claimable : 0 < max_attempts → is_claimable_one row.id now max_attempts row ≡ true
  unfolding is_claimable_one build_outbox_row is_open
  row-claimable many = ground arith

  -- If an id is read back from its text, which is not empty, then for an item with an expiry date,
  -- an event that is not yet in the outbox, and at least one attempt allowed, the event is stored
  -- and given to the broker in the same call: its row is SENT after one attempt, or FAILED with the
  -- error and a retry a minute later.
  pub expiry_published :
      (t : Outbox)
      → 0 < max_attempts
      → Table.get event_key (event_id_of o i alert_type today) t ≡ none
      → (a : Attempt) × (publish_expiry_event o i alert_type today now max_attempts t ≡ ok a)
        × (a.tried ≡ some sent)
        × (Table.get key row.id a.outbox ≡ some answered)
  unfolding build_outbox_row event_id_of
  expiry_published t many absent =
      let self = self_get t in
      let fits = row-claimable many in
      let u = (claim_one row.id now max_attempts (row ∷ t)).0 in
      let (tried, done) =
        publish_now-answered u
          (claim_one-get row.id now max_attempts (row ∷ t) row.id row self ∙ rw fits refl) in
      (
        publish_now o row.id now sent u,
        published-row t (row ∷ t) (row.id, row.status, row.attempt_count) (ensure-new row t absent)
            ∙ ap ok (publish_row_claimed o now max_attempts sent (row ∷ t) row self fits),
        tried,
        done,
      )

  -- If an id is read back from its text, which is not empty, then for an item with an expiry date,
  -- an event whose row in the outbox is sent or being sent, or has used up its attempts, is not
  -- given to the broker again, and its row stays as it is.
  pub expiry_not_repeated :
      (t : Outbox) (r : NotificationOutbox)
      → Table.get event_key (event_id_of o i alert_type today) t ≡ some r
      → Table.get key r.id t ≡ some r
      → IsClosed max_attempts r
      → (a : Attempt) × (publish_expiry_event o i alert_type today now max_attempts t ≡ ok a)
        × (a.tried ≡ none)
        × (Table.get key r.id a.outbox ≡ some r)
  unfolding build_outbox_row event_id_of
  expiry_not_repeated t r known here c = (
    publish_row o now max_attempts sent t (r.id, r.status, r.attempt_count),
    published-row t t (r.id, r.status, r.attempt_count) (ensure-old row r t known),
    (publish_row_idle o now max_attempts sent t r here c).0,
    (publish_row_idle o now max_attempts sent t r here c).1,
  )
