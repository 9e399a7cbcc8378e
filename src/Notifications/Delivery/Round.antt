-- ===== src/Notifications/Delivery/Round.antt =====
-- One round of a worker: claim, send, finalize (app/apis/notifications/worker/handlers.py, as the
-- consumer calls it).
use family_inventory.Prelude.{
  ◌≤◌, ◌+◌, length, select, String, ℕ, ◌≡◌, true, none, some, List, map, arith, ◌∙◌, ap,
  if◌then◌else◌,
}
use family_inventory.Prelude.Table
use family_inventory.Prelude.Table.Results.{last-map}
use family_inventory.Prelude.Table.Claim.{chosen_complete, get-claimed, claimed-IsKeyed}
use family_inventory.Notifications.Types.{DeliveryStatus}
use family_inventory.Notifications.Delivery.{
  NotificationDelivery, Deliveries, key, Claim, DeliverySendResult, claim_deliveries_to_send,
  finalize_delivery_results, result_for, settle, is_settled, mark_sending, is_older, next_retry_at,
}
use family_inventory.Notifications.Delivery.Claims.{is_chosen, claim-chosen, key-mark_sending, fits}
use family_inventory.Notifications.Headers.{Headers, merge}
use family_inventory.Notifications.Errors.{Exception, error_text}
use family_inventory.Notifications.Delivery.Send.{
  Sender, Senders, send_one, with_topic, send_claimed_deliveries,
}
use family_inventory.Notifications.Delivery.Settles.{finalize-get}

module _ (send : NotificationDelivery → DeliverySendResult)
    (named : (d : NotificationDelivery) → (send d).delivery_id ≡ d.id) where
  -- Claim, send what was claimed, and finalize what came of it.
  unfoldable pub round : Claim → Deliveries → Deliveries
  round c t =
      let (t', rows) = claim_deliveries_to_send c t in
      (finalize_delivery_results c.worker_id (map send rows) t').0

  -- the row of a delivery after a round that claimed it
  abbrev pub released : Claim → NotificationDelivery → NotificationDelivery
  released c d =
      let taken = mark_sending c.now c.worker_id d in
      let r = send taken in
      record taken {
        status = r.status;
        next_retry_at = r.next_retry_at;
        last_error = r.last_error;
        locked_by = none;
        locked_at = none;
        lock_expires_at = none;
      }

  -- What a finalization makes of a row that a claim took and that has this result.
  pub settled-released :
      (c : Claim) (d : NotificationDelivery) (rs : List DeliverySendResult)
      → result_for d.id rs ≡ some (send (mark_sending c.now c.worker_id d))
      → let taken = mark_sending c.now c.worker_id d in
        (if is_settled c.worker_id rs taken then settle rs taken else taken) ≡ released c d
  unfolding is_settled settle mark_sending
  settled-released c d rs h = ground arith

  round-chosen :
      (c : Claim) (t : Deliveries) (i : ℕ) (d : NotificationDelivery)
      → Table.IsKeyed key t
      → Table.get key i t ≡ some d
      → is_chosen c t i ≡ true
      → Table.get key i (round c t) ≡ some (released c d)
  unfolding round claim_deliveries_to_send is_chosen
  round-chosen c t i d k here e =
      let p = fits c in
      let f = mark_sending c.now c.worker_id in
      let same = key-mark_sending c.now c.worker_id in
      let rows = Table.claimed key p is_older c.claim_limit f t in
      let result =
        last-map (λ r. r.delivery_id) key send named i rows (f d)
          (claimed-IsKeyed key p is_older c.claim_limit f t same k)
          (get-claimed key p is_older c.claim_limit f t same i d here e) in
      finalize-get c.worker_id (map send rows) (claim_deliveries_to_send c t).0 i (f d)
        (claim-chosen c t i d here e)
      ∙ ap some (
          settled-released c d (map send rows)
            (ap (λ j. result_for j (map send rows)) (Table.get-key key i t d here) ∙ result))

  -- In a table with different ids, if the claimable rows are no more than the limit, a round of
  -- claim, send and finalize releases a claimable row with the status, the error and the retry time
  -- of its result.
  pub round_releases :
      (c : Claim) (t : Deliveries) (i : ℕ) (d : NotificationDelivery)
      → Table.IsKeyed key t
      → length (select (fits c) t) ≤ c.claim_limit
      → Table.get key i t ≡ some d
      → fits c d ≡ true
      → Table.get key i (round c t) ≡ some (released c d)
  unfolding is_chosen
  round_releases c t i d k room here e =
      round-chosen c t i d k here
        (chosen_complete key (fits c) is_older c.claim_limit t k i d here e room)

-- Steps 1 to 3 of the consumer's `on_message`, with the channels' senders. The sweeper, which does not
-- send IN_APP and PUSH, has its own turn.
module _ (senders : Senders) (clock : ℕ → ℕ) (subject message : String) (headers : Headers) where
  unfoldable pub deliver : Claim → Deliveries → Deliveries
  deliver c t =
      let (t', rows) = claim_deliveries_to_send c t in
      (finalize_delivery_results c.worker_id
        (send_claimed_deliveries senders clock subject message headers rows) t').0

  send_one_named :
      (d : NotificationDelivery)
      → (send_one senders clock subject message (with_topic headers) d).delivery_id ≡ d.id
  unfolding send_one
  send_one_named d = ground arith

  module _ (c : Claim) (t : Deliveries) (i : ℕ) (d : NotificationDelivery) (send : Sender)
      (keyed : Table.IsKeyed key t) (room : length (select (fits c) t) ≤ c.claim_limit)
      (here : Table.get key i t ≡ some d) (fit : fits c d ≡ true)
      (known : senders d.channel ≡ some send) where
    delivered :
        Table.get key i (deliver c t)
        ≡ some (
            released
              (send_one senders clock subject message (with_topic headers))
              send_one_named
              c
              d)
    unfolding deliver send_claimed_deliveries round
    delivered =
        round_releases (send_one senders clock subject message (with_topic headers)) send_one_named
          c t i d keyed room here fit

    -- In a table with different ids, if the limit has room for every claimable row, then a
    -- claimable delivery whose channel has a sender that returns is sent by the round: it is
    -- `sent`, with one more attempt, and holds no lock and no retry.
    pub deliver_sends :
        send d.id d.recipient subject message (merge (with_topic headers) d.context) ≡ none
        → Table.get key i (deliver c t)
          ≡ some (record d {
            status = DeliveryStatus.sent;
            attempt_count = d.attempt_count + 1;
            last_attempt_at = some c.now;
            next_retry_at = none;
            last_error = none;
            locked_by = none;
            locked_at = none;
            lock_expires_at = none;
          })
    unfolding send_one mark_sending
    deliver_sends ok = ground (arith, delivered)

    -- In a table with different ids, if the limit has room for every claimable row, then a
    -- claimable delivery whose channel has a sender that raises is `failed` after the round, with
    -- the error's text, one more attempt, no lock, and a retry after the backoff for the attempts
    -- that it has now had.
    pub deliver_retries :
        (exc : Exception)
        → send d.id d.recipient subject message (merge (with_topic headers) d.context) ≡ some exc
        → Table.get key i (deliver c t)
          ≡ some (record d {
            status = DeliveryStatus.failed;
            attempt_count = d.attempt_count + 1;
            last_attempt_at = some c.now;
            next_retry_at = some (next_retry_at (clock d.id) (d.attempt_count + 1));
            last_error = some (error_text exc);
            locked_by = none;
            locked_at = none;
            lock_expires_at = none;
          })
    unfolding send_one mark_sending
    deliver_retries exc bad = ground (arith, delivered)
