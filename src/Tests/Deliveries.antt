-- ===== src/Tests/Deliveries.antt =====
-- Claims, leases and finalizations at concrete rows.
use family_inventory.Prelude.{
  ◌<◌, ◌+◌, length, select, ◌+◌, ◌≤◌, ◌≡◌, ◌⊎◌, refl, false, none, some, List, [], ◌∷◌, arith, All,
}
use family_inventory.Prelude.Table
use family_inventory.Notifications.Types.{is_sending}
use family_inventory.Notifications.Delivery.{
  NotificationDelivery, key, claim_deliveries_to_send, next_retry_at, backoff_bounds,
}
use family_inventory.Notifications.Types.{DeliveryStatus}
use family_inventory.Notifications.Delivery.Free.{IsFree}
use family_inventory.Notifications.Delivery.Claims.{fits, claim_exact}
use family_inventory.Notifications.Delivery.Lease.{
  Action, claims, settles, arrives, run, lease_excludes, sent_is_final,
}
use family_inventory.Notifications.Delivery.Reach.{IsSound, run-IsSound}
use family_inventory.Tests.Rows.{waiting, held, sent, exhausted, later, rows, rows-IsKeyed, claim}

claim_exact_example :
    let t' = (claim_deliveries_to_send claim rows).0 in
    (IsFree claim waiting
      × (Table.get key 1 t'
          ≡ some (record waiting {
            status = DeliveryStatus.sending;
            locked_by = some 9;
            locked_at = some 100;
            lock_expires_at = some 220;
            last_attempt_at = some 100;
            attempt_count = waiting.attempt_count + 1;
          })))
    ⊎ ((Table.get key 1 t' ≡ some waiting)
        × ((¬ IsFree claim waiting) ⊎ (claim.claim_limit < length (select (fits claim) rows))))
claim_exact_example = claim_exact claim rows rows-IsKeyed 1 waiting refl

-- what other workers do in the meantime
abbrev others : List Action
others = claims claim ∷ settles 9 [] ∷ arrives later ∷ []

lease_excludes_example : Table.get key 2 (run others rows) ≡ some held
lease_excludes_example =
    lease_excludes others rows 2 4 200 held rows-IsKeyed refl refl refl refl
      (omega arith, (omega arith, (tt, tt)))

sent_is_final_example : Table.get key 3 (run others rows) ≡ some sent
sent_is_final_example = sent_is_final others rows 3 sent rows-IsKeyed refl refl

sound :
    (d : NotificationDelivery)
    → d.attempt_count ≤ d.max_attempts
    → d.locked_by ≡ none
    → d.lock_expires_at ≡ none
    → is_sending d.status ≡ false
    → IsSound d
sound d a b c e = ground arith

run-IsSound_example : Table.IsKeyed key (run others rows) × All IsSound (run others rows)
run-IsSound_example =
    run-IsSound others rows rows-IsKeyed
      (
        sound waiting (omega arith) refl refl refl,
        (
          record { budget = omega arith; locked = refl; leased = refl },
          (
            sound sent (omega arith) refl refl refl,
            (
              sound exhausted (omega arith) refl refl refl,
              (sound later (omega arith) refl refl refl, tt),
            ),
          ),
        ),
      )
      (tt, (tt, (sound later (omega arith) refl refl refl, tt)))

backoff_bounds_example : (100 + 60 ≤ next_retry_at 100 3) × (next_retry_at 100 3 ≤ 100 + 3600)
backoff_bounds_example = backoff_bounds 100 3
