-- ===== src/Notifications/Delivery/Lease.antt =====
-- Leases and interleavings: workers that claim and finalize deliveries of one table in any order
-- (app/apis/notifications/worker/handlers.py, called by the consumer and by the sweeper).
use family_inventory.Prelude.{
  ℕ, ◌≤◌, ◌≡◌, ◌≢◌, false, some, List, [], ◌∷◌, arith, Bool-cases, inl, inr, All, All-imply,
  All-true, if◌then◌else◌,
}
use family_inventory.Prelude.Table
use family_inventory.Prelude.Table.Claim.{claim-IsKeyed}
use family_inventory.Notifications.Types.{DeliveryStatus}
use family_inventory.Notifications.Delivery.{
  NotificationDelivery, Deliveries, key, DeliverySendResult, Claim, is_claimable, is_ready,
  claim_deliveries_to_send, finalize_delivery_results, is_settled, is_older,
}
use family_inventory.Notifications.Delivery.Claims.{claim_cases, key-mark_sending, fits}
use family_inventory.Notifications.Delivery.Settles.{finalize-get, finalize-IsKeyed, not-settled}

-- What workers do to the table: a claim, a finalization, and the arrival of a new row.
pub data Action : Type 0 where
  claims : Claim → Action
  settles : ℕ → List DeliverySendResult → Action
  arrives : NotificationDelivery → Action

unfoldable pub step : Action → Deliveries → Deliveries
step (claims c) t = (claim_deliveries_to_send c t).0
step (settles w rs) t = (finalize_delivery_results w rs t).0
step (arrives d) t = if Table.has key d.id t then t else d ∷ t

-- The actions one after the other, in the order in which their transactions commit.
unfoldable pub run : List Action → Deliveries → Deliveries
run [] t = t
run (a ∷ acts) t = run acts (step a t)

pub step-IsKeyed :
    (a : Action) (t : Deliveries) → Table.IsKeyed key t → Table.IsKeyed key (step a t)
unfolding step claim_deliveries_to_send
step-IsKeyed (claims c) t h =
    claim-IsKeyed key (fits c) is_older c.claim_limit _ t (key-mark_sending c.now c.worker_id) h
step-IsKeyed (settles w rs) t h = finalize-IsKeyed w rs t h
step-IsKeyed (arrives d) t h = elim (Bool-cases (Table.has key d.id t)) [
  | inl e ↦ rw e h
  | inr e ↦ rw e (e, h)
]

-- A row stays as it is through actions that may not touch it.
abbrev Spares : NotificationDelivery → Action → Type 0
Spares d (claims c) = fits c d ≡ false
Spares d (settles w rs) = is_settled w rs d ≡ false
Spares d (arrives e) = Unit

module _ (i : ℕ) (d : NotificationDelivery) where
  step-Spares :
      (a : Action) (t : Deliveries)
      → Table.IsKeyed key t
      → Table.get key i t ≡ some d
      → Spares d a
      → Table.get key i (step a t) ≡ some d
  unfolding step
  step-Spares (claims c) t k here s = elim (claim_cases c t k i d here) [
    | inl e ↦ e
    | inr (f, _) ↦ cc (f, s)
  ]
  step-Spares (settles w rs) t k here s = rw (finalize-get w rs t i d here, s)
  step-Spares (arrives e) t k here s = ground (arith, Table.has-of-get key i t d here)

  run-Spares :
      (acts : List Action) (t : Deliveries)
      → Table.IsKeyed key t
      → Table.get key i t ≡ some d
      → All (Spares d) acts
      → Table.get key i (run acts t) ≡ some d
  unfolding run
  run-Spares [] t k here s = here
  run-Spares (a ∷ acts) t k here s =
      run-Spares acts (step a t) (step-IsKeyed a t k) (step-Spares a t k here s.0) s.1

-- While a lease runs: claims at times up to its end, and finalizations by other workers.
abbrev pub WhileLeased : ℕ → ℕ → Action → Type 0
WhileLeased w e (claims c) = c.now ≤ e
WhileLeased w e (settles v rs) = v ≢ w
WhileLeased w e (arrives d) = Unit

leased-Spares :
    (w e : ℕ) (d : NotificationDelivery) (a : Action)
    → d.status ≡ DeliveryStatus.sending
    → d.locked_by ≡ some w
    → d.lock_expires_at ≡ some e
    → WhileLeased w e a
    → Spares d a
unfolding is_claimable is_ready
leased-Spares w e d (claims c) s l x h = ground arith
leased-Spares w e d (settles v rs) s l x h = not-settled v rs d (inl (rw l (ground arith)))
leased-Spares w e d (arrives n) s l x h = tt

-- In a table with different ids, a delivery that is being sent and that a worker holds with a lease
-- is left alone by everything that others do while the lease runs: claims of any worker at times up
-- to the end of the lease, finalizations by other workers with any results, and new rows, in any
-- number and order.
pub lease_excludes :
    (acts : List Action) (t : Deliveries) (i w e : ℕ) (d : NotificationDelivery)
    → Table.IsKeyed key t
    → Table.get key i t ≡ some d
    → d.status ≡ DeliveryStatus.sending
    → d.locked_by ≡ some w
    → d.lock_expires_at ≡ some e
    → All (WhileLeased w e) acts
    → Table.get key i (run acts t) ≡ some d
lease_excludes acts t i w e d k here s l x h =
    run-Spares i d acts t k here (All-imply _ _ acts (λ a g. leased-Spares w e d a s l x g) h)

sent-Spares : (d : NotificationDelivery) (a : Action) → d.status ≡ DeliveryStatus.sent → Spares d a
unfolding is_claimable is_ready
sent-Spares d (claims c) s = ground arith
sent-Spares d (settles v rs) s = not-settled v rs d (inr (ground arith))
sent-Spares d (arrives n) s = tt

-- In a table with different ids, a delivery that has been sent stays as it is, whatever claims,
-- finalizations and new rows follow, in any number and order.
pub sent_is_final :
    (acts : List Action) (t : Deliveries) (i : ℕ) (d : NotificationDelivery)
    → Table.IsKeyed key t
    → Table.get key i t ≡ some d
    → d.status ≡ DeliveryStatus.sent
    → Table.get key i (run acts t) ≡ some d
sent_is_final acts t i d k here s =
    run-Spares i d acts t k here (All-true acts (λ a. sent-Spares d a s))

exhausted-Spares :
    (d : NotificationDelivery) (a : Action)
    → d.status ≢ DeliveryStatus.sending
    → d.max_attempts ≤ d.attempt_count
    → Spares d a
unfolding is_claimable
exhausted-Spares d (claims c) s h = ground arith
exhausted-Spares d (settles v rs) s h = not-settled v rs d (inr (ground arith))
exhausted-Spares d (arrives n) s h = tt

-- In a table with different ids, a delivery that is not being sent and has used up its attempts
-- stays as it is, whatever claims, finalizations and new rows follow, in any number and order.
pub exhausted_is_final :
    (acts : List Action) (t : Deliveries) (i : ℕ) (d : NotificationDelivery)
    → Table.IsKeyed key t
    → Table.get key i t ≡ some d
    → d.status ≢ DeliveryStatus.sending
    → d.max_attempts ≤ d.attempt_count
    → Table.get key i (run acts t) ≡ some d
exhausted_is_final acts t i d k here s h =
    run-Spares i d acts t k here (All-true acts (λ a. exhausted-Spares d a s h))
