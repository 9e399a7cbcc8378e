-- ===== src/Notifications/Outbox/Published.antt =====
-- What a sweep of the outbox leaves behind: `sweep_outbox_once` of
-- app/apis/notifications/worker/sweeper.py.
use family_inventory.Prelude.{
  ℕ, ◌+◌, ◌≤◌, ◌≡◌, ◌∙◌, ap, String, true, none, some, map, arith, length, select,
}
use family_inventory.Prelude.Table
use family_inventory.Prelude.Table.Claim.{get-claimed, claimed-IsKeyed, claim_hit, chosen_complete}
use family_inventory.Prelude.Table.Results.{last-map}
use family_inventory.Notifications.Headers.{Value}
use family_inventory.Notifications.Errors.{Exception, error_text}
use family_inventory.Notifications.Delivery.{next_retry_at}
use family_inventory.Notifications.Outbox.{
  NotificationOutbox, Outbox, StatusWord, literal, key, SendClaim, is_claimable, is_older,
  mark_sending, claim_for_send, OutboxResult, result_for, settle,
}
use family_inventory.Notifications.Outbox.Claims.{finalize-get, key-mark_sending}
use family_inventory.Notifications.Outbox.Sweep.{Broker, envelope, publish_row, sweep_outbox_once}

module _ (str_id : ℕ → String) (str : Value → String) (broker : Broker) (clock : ℕ → ℕ)
    (c : SendClaim) (t : Outbox) (i : ℕ) (r : NotificationOutbox) (keyed : Table.IsKeyed key t)
    (room : length (select (is_claimable c) t) ≤ c.limit) (here : Table.get key i t ≡ some r)
    (fit : is_claimable c r ≡ true) where
  abbrev publish : NotificationOutbox → OutboxResult
  publish = publish_row str_id str broker clock

  publish_named : (x : NotificationOutbox) → (publish x).outbox_id ≡ key x
  unfolding publish_row
  publish_named x = ground arith

  swept :
      Table.get key i (sweep_outbox_once str_id str broker clock c t).0
      ≡ some (
          let x = publish (mark_sending r) in
          record (mark_sending r) {
            status = x.status;
            last_error = x.last_error;
            next_retry_at = x.next_retry_at;
          })
  unfolding sweep_outbox_once claim_for_send settle
  swept =
      let p = is_claimable c in
      let chosen_here = chosen_complete key p is_older c.limit t keyed i r here fit room in
      let rows = Table.claimed key p is_older c.limit mark_sending t in
      let result =
        last-map (λ x. x.outbox_id) key publish publish_named i rows (mark_sending r)
          (claimed-IsKeyed key p is_older c.limit mark_sending t key-mark_sending keyed)
          (get-claimed key p is_older c.limit mark_sending t key-mark_sending i r here
            chosen_here) in
      let found : result_for (mark_sending r).id (map publish rows)
          ≡ some (publish (mark_sending r)) =
        ap (λ j. result_for j (map publish rows))
          (key-mark_sending r ∙ Table.get-key key i t r here)
        ∙ result in
      finalize-get (map publish rows) (claim_for_send c t).0 i (mark_sending r)
        (claim_hit key p is_older c.limit mark_sending t key-mark_sending i r here chosen_here)
      ∙ ap some (rw (found, settle))

  -- In an outbox with different ids, if the limit has room for every claimable row and the broker
  -- takes the envelope of a claimable row, the row is SENT after the sweep, with its attempt
  -- counted.
  pub sweep_publishes :
      broker r.id (envelope str_id str (mark_sending r)) ≡ none
      → Table.get key i (sweep_outbox_once str_id str broker clock c t).0
        ≡ some (record r {
          status = literal StatusWord.sent;
          attempt_count = r.attempt_count + 1;
          last_error = none;
          next_retry_at = none;
        })
  unfolding publish_row mark_sending
  sweep_publishes ok = ground (arith, swept)

  -- In an outbox with different ids, if the limit has room for every claimable row and the broker
  -- raises on the envelope of a claimable row, the row is FAILED after the sweep, with its attempt
  -- counted, the error's text and a retry after the backoff for the attempts that it has now had.
  pub sweep_retries :
      (exc : Exception)
      → broker r.id (envelope str_id str (mark_sending r)) ≡ some exc
      → Table.get key i (sweep_outbox_once str_id str broker clock c t).0
        ≡ some (record r {
          status = literal StatusWord.failed;
          attempt_count = r.attempt_count + 1;
          last_error = some (error_text exc);
          next_retry_at = some (next_retry_at (clock r.id) (r.attempt_count + 1));
        })
  unfolding publish_row mark_sending
  sweep_retries exc bad = ground (arith, swept)
