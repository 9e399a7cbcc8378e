-- ===== src/Notifications/Worker/Sweep/Releases.antt =====
-- What a sweep does to one delivery: `sweep_once` of app/apis/notifications/worker/sweeper.py.
use Prim.Native.String.{◌++◌ as append}
use family_inventory.Prelude.{
  Option, none, Option-cases, ◌≢◌, ◌⊎◌, ◌+◌, false, Bool, ℕ, ◌≤◌, ◌≡◌, refl, ◌∙◌, ap, true, not,
  some, [], ◌∷◌, map, arith, Bool-cases, inl, inr, select, length, String,
}
use family_inventory.Prelude.Table
use family_inventory.Prelude.Table.Results.{last-map, last-none, last-append_none, last-append_some}
use family_inventory.Prelude.Table.Claim.{chosen_complete, get-claimed, claimed-IsKeyed}
use family_inventory.Notifications.Types.{NotificationChannel, DeliveryStatus, channel_value}
use family_inventory.Notifications.Errors.{Exception, error_text}
use family_inventory.Notifications.Delivery.{
  next_retry_at, NotificationDelivery, Deliveries, DeliverySendResult, key, mark_sending, is_older,
  result_for, finalize_delivery_results, claim_deliveries_to_send,
}
use family_inventory.Notifications.Delivery.Send.{
  Sender, Senders, send_one, failure_result, with_topic,
}
use family_inventory.Notifications.Delivery.Claims.{is_chosen, claim-chosen, key-mark_sending, fits}
use family_inventory.Notifications.Delivery.Settles.{finalize-get}
use family_inventory.Notifications.Delivery.Round.{released, settled-released}
use family_inventory.Notifications.Ingest.{Database, NotificationEvent}
use family_inventory.Notifications.Worker.Sweep.{
  Sweep, sweep_result, sweep_results, finish_event, sweep_event, claim_of, is_in_app, or_blank,
  base_headers, should_not_be_here, without_context,
}

-- `is_in_app` of a channel
abbrev is_in_app_channel : NotificationChannel → Bool
is_in_app_channel c = elim c [
  | NotificationChannel.in_app ↦ true
  | NotificationChannel.push ↦ true
  | _ ↦ false
]

channel-cases :
    (c : NotificationChannel)
    → ((c ≡ NotificationChannel.in_app) ⊎ (c ≡ NotificationChannel.push))
      ⊎ ((c ≢ NotificationChannel.in_app)
          × (c ≢ NotificationChannel.push)
          × (is_in_app_channel c ≡ false))
channel-cases NotificationChannel.in_app = inl (inl refl)
channel-cases NotificationChannel.push = inl (inr refl)
channel-cases NotificationChannel.email = inr (λ e. cc (e), λ e. cc (e), refl)
channel-cases NotificationChannel.sms = inr (λ e. cc (e), λ e. cc (e), refl)
channel-cases NotificationChannel.log = inr (λ e. cc (e), λ e. cc (e), refl)

module _ (str_id : ℕ → String) (senders : Senders) (clock : ℕ → ℕ) (e : NotificationEvent) where
  abbrev pub send : NotificationDelivery → DeliverySendResult
  send = sweep_result str_id senders clock e

  pub send_named : (d : NotificationDelivery) → (send d).delivery_id ≡ d.id
  unfolding sweep_result send_one failure_result
  send_named d = ground arith

  -- The result of a claimed row, wherever the sweep puts it.
  result_for-sweep_results :
      (i : ℕ) (t : Deliveries) (d : NotificationDelivery)
      → Table.IsKeyed key t
      → Table.get key i t ≡ some d
      → result_for i (sweep_results str_id senders clock e t) ≡ some (send d)
  unfolding sweep_results
  result_for-sweep_results i t d k here =
      let id_of = λ (r : DeliverySendResult). r.delivery_id in
      let sent = select (λ d. not (is_in_app d)) t in
      let skipped = select is_in_app t in
      elim (Bool-cases (is_in_app d)) [
        | inl h ↦ last-append_some id_of i (map send sent) (map send skipped) (send d) (
            last-map id_of key send send_named i skipped d (Table.select-IsKeyed key is_in_app t k)
              (Table.get-select key i is_in_app t d here h))
        | inr h ↦
            last-append_none id_of i (map send sent) (map send skipped) (
              last-none id_of key send send_named i skipped
                (Table.has-select_fail key i is_in_app t d k here h))
            ∙ last-map id_of key send send_named i sent d
                (Table.select-IsKeyed key (λ d. not (is_in_app d)) t k)
                (Table.get-select key i (λ d. not (is_in_app d)) t d here (ap not h))
      ]

  finish_event-deliveries :
      (s : Sweep) (t claimed : Deliveries) (db : Database)
      → (finish_event str_id senders clock s e t claimed db).0.deliveries
        ≡ (finalize_delivery_results s.worker_id (sweep_results str_id senders clock e claimed) t).0
  unfolding finish_event sweep_results finalize_delivery_results
  finish_event-deliveries s t [] db = refl
  finish_event-deliveries s t (d ∷ ds) db = refl

  sweep_event-deliveries :
      (s : Sweep) (j : ℕ) (db : Database)
      → Table.get (λ (e : NotificationEvent). e.id) j db.events ≡ some e
      → (sweep_event str_id senders clock s j db).0.deliveries
        ≡ (finalize_delivery_results s.worker_id
            (sweep_results str_id senders clock e
              (claim_deliveries_to_send (claim_of s j) db.deliveries).1)
            (claim_deliveries_to_send (claim_of s j) db.deliveries).0).0
  unfolding sweep_event
  sweep_event-deliveries s j db h =
      rw (sweep_event, h)
        (finish_event-deliveries s (claim_deliveries_to_send (claim_of s j) db.deliveries).0
          (claim_deliveries_to_send (claim_of s j) db.deliveries).1 db)

  sweep_released :
      (s : Sweep) (j : ℕ) (db : Database) (i : ℕ) (d : NotificationDelivery)
      → Table.IsKeyed key db.deliveries
      → Table.get (λ (e : NotificationEvent). e.id) j db.events ≡ some e
      → length (select (fits (claim_of s j)) db.deliveries) ≤ s.claim_limit
      → Table.get key i db.deliveries ≡ some d
      → fits (claim_of s j) d ≡ true
      → Table.get key i (sweep_event str_id senders clock s j db).0.deliveries
        ≡ some (released send send_named (claim_of s j) d)
  unfolding is_chosen claim_deliveries_to_send claim_of
  sweep_released s j db i d k known room here fit =
      let c = claim_of s j in
      let t = db.deliveries in
      let f = mark_sending c.now c.worker_id in
      let same = key-mark_sending c.now c.worker_id in
      let chosen = chosen_complete key (fits c) is_older c.claim_limit t k i d here fit room in
      let rows = Table.claimed key (fits c) is_older c.claim_limit f t in
      let rs = sweep_results str_id senders clock e rows in
      let result =
        result_for-sweep_results i rows (f d)
          (claimed-IsKeyed key (fits c) is_older c.claim_limit f t same k)
          (get-claimed key (fits c) is_older c.claim_limit f t same i d here chosen) in
      ap (Table.get key i) (sweep_event-deliveries s j db known)
      ∙ finalize-get c.worker_id rs (claim_deliveries_to_send c t).0 i (f d)
          (claim-chosen c t i d here chosen)
      ∙ ap some (
          settled-released send send_named c d rs
            (ap (λ j. result_for j rs) (Table.get-key key i t d here) ∙ result))

  -- The row of a delivery that a sweep took, after it failed with a text and a retry time.
  abbrev pub failed_row :
      Sweep → ℕ → NotificationDelivery → String → Option ℕ → NotificationDelivery
  failed_row s j d error retry = record d {
    status = DeliveryStatus.failed;
    attempt_count = d.attempt_count + 1;
    last_attempt_at = some (s.claim_now j);
    next_retry_at = retry;
    last_error = some error;
    locked_by = none;
    locked_at = none;
    lock_expires_at = none;
  }

  -- the same row, sent
  abbrev pub sent_row : Sweep → ℕ → NotificationDelivery → NotificationDelivery
  sent_row s j d = record d {
    status = DeliveryStatus.sent;
    attempt_count = d.attempt_count + 1;
    last_attempt_at = some (s.claim_now j);
    next_retry_at = none;
    last_error = none;
    locked_by = none;
    locked_at = none;
    lock_expires_at = none;
  }

  -- What becomes of a delivery that a sweep takes, by its channel. IN_APP and PUSH: a failure that is
  -- retried, whatever the senders do. Another channel without a sender: a failure without a
  -- retry time. With a sender: sent if its call for the delivery returns, and else a failure with the
  -- error's text that is retried after the backoff for the attempts it has now had.
  abbrev pub IsSwept : Sweep → ℕ → NotificationDelivery → Option NotificationDelivery → Type 0
  IsSwept s j d row =
      let retry = some (next_retry_at (clock d.id) (d.attempt_count + 1)) in
      (((d.channel ≡ NotificationChannel.in_app) ⊎ (d.channel ≡ NotificationChannel.push))
        × ((error : String) × (row ≡ some (failed_row s j d error retry))))
      ⊎ ((d.channel ≢ NotificationChannel.in_app)
          × (d.channel ≢ NotificationChannel.push)
          × (((senders d.channel ≡ none)
                × ((error : String) × (row ≡ some (failed_row s j d error none))))
              ⊎ ((call : Sender) × (senders d.channel ≡ some call)
                  × (let raised =
                        call d.id d.recipient (or_blank e.subject) e.message
                          (with_topic (base_headers str_id senders clock e)) in
                      ((raised ≡ none) × (row ≡ some (sent_row s j d)))
                      ⊎ ((exc : Exception) × (raised ≡ some exc)
                          × (row ≡ some (failed_row s j d (error_text exc) retry)))))))

  in_app-send :
      (d : NotificationDelivery)
      → is_in_app d ≡ true
      → send d ≡ failure_result (should_not_be_here d) clock d
  unfolding sweep_result failure_result should_not_be_here
  in_app-send d h = rw (sweep_result, h) refl

  other-send :
      (d : NotificationDelivery)
      → is_in_app d ≡ false
      → send d
        ≡ send_one senders clock
            (or_blank e.subject)
            e.message
            (with_topic (base_headers str_id senders clock e))
            (without_context d)
  unfolding sweep_result
  other-send d h = rw (sweep_result, h) refl

  -- In a table with different ids, if the event exists and the limit has room for all of its
  -- claimable deliveries, a sweep of the event takes a claimable delivery and releases it, with one
  -- more attempt. An IN_APP or PUSH delivery has then failed and is to be retried, whatever the
  -- senders do. Any other has failed without a retry time if its channel has no sender, is sent if the call of
  -- the sender for it returns, and else has failed with the error's text and is to be retried.
  pub sweep_event_releases :
      (s : Sweep) (j : ℕ) (db : Database) (i : ℕ) (d : NotificationDelivery)
      → Table.IsKeyed key db.deliveries
      → Table.get (λ (e : NotificationEvent). e.id) j db.events ≡ some e
      → length (select (fits (claim_of s j)) db.deliveries) ≤ s.claim_limit
      → Table.get key i db.deliveries ≡ some d
      → fits (claim_of s j) d ≡ true
      → IsSwept s j d (Table.get key i (sweep_event str_id senders clock s j db).0.deliveries)
  unfolding send_one failure_result mark_sending claim_of
  sweep_event_releases s j db i d k known room here fit =
      let row = sweep_released s j db i d k known room here fit in
      let taken = mark_sending (s.claim_now j) s.worker_id d in
      elim (channel-cases d.channel) [
        | inl h ↦
            let skipped : is_in_app taken ≡ true = elim h [
              | inl x ↦ rw x refl
              | inr x ↦ rw x refl
            ] in
            inl (
              h,
              (error_text (should_not_be_here taken), row ∙ rw (in_app-send taken skipped) refl),
            )
        | inr (p, q, h) ↦
            let sends = other-send taken h in
            inr (
              p,
              q,
              elim (Option-cases (senders d.channel)) [
                | inl n ↦ inl (
                  n,
                  (
                    append "Unsupported channel: " (channel_value d.channel),
                    row ∙ rw (sends, send_one, n) refl,
                  ),
                )
                | inr (call, n) ↦ inr (
                  call,
                  n,
                  elim (Option-cases (
                      call d.id d.recipient (or_blank e.subject) e.message
                        (with_topic (base_headers str_id senders clock e)))) [
                          | inl r ↦ inl (r, row ∙ rw (sends, send_one, n, r) refl)
                          | inr (exc, r) ↦ inr (exc, r, row ∙ rw (sends, send_one, n, r) refl)
                        ],
                )
              ],
            )
      ]
