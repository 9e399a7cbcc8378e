-- ===== src/Notifications/Delivery/Free.antt =====
-- Which deliveries a claim may take, in the words of the query of `claim_deliveries_to_send`
-- (app/apis/notifications/worker/handlers.py).
use mathlib.Core.Option.{some-injective}
use family_inventory.Prelude.{
  ℕ, ◌≤◌, ◌<◌, ◌≡◌, ◌⊎◌, inl, inr, ◌↔◌, refl, true, false, Option, none, some, ap, arith, not, ◌&&◌,
  ◌||◌, is_none,
}
use family_inventory.Notifications.Types.{
  DeliveryStatus, pending, sending, sent, failed, is_pending, is_sending, is_failed,
}
use family_inventory.Notifications.Delivery.{
  NotificationDelivery, Claim, is_claimable, is_ready, due_by, past,
}

-- Not yet sent; failed and without a retry time or with one that is reached; or being sent under a
-- lease that ran out.
abbrev pub IsOpen : ℕ → NotificationDelivery → Type 0
IsOpen now d =
    (d.status ≡ pending)
    ⊎ (((d.status ≡ failed)
          × ((d.next_retry_at ≡ none) ⊎ ((n : ℕ) × (d.next_retry_at ≡ some n) × (n ≤ now))))
        ⊎ ((d.status ≡ sending) × ((n : ℕ) × (d.lock_expires_at ≡ some n) × (n < now))))

-- Of the event, with attempts left, open, and not locked by another transaction.
abbrev pub IsFree : Claim → NotificationDelivery → Type 0
IsFree c d =
    (d.event_id ≡ c.event_id)
    × (d.attempt_count < d.max_attempts)
    × IsOpen c.now d
    × (c.locked d.id ≡ false)

retry-due :
    (o : Option ℕ) (now : ℕ)
    → (is_none o || due_by o now ≡ true) ↔ ((o ≡ none) ⊎ ((n : ℕ) × (o ≡ some n) × (n ≤ now)))
retry-due none now = (λ _. inl refl, λ _. refl)
retry-due (some n) now = (
  λ e. inr (n, refl, ground (arith, e)),
  λ e. elim e [ inl q ↦ cc (q) | inr (k, q, l) ↦ ground (arith, some-injective _ _ q, l) ],
)

lease-past :
    (o : Option ℕ) (now : ℕ)
    → (not (is_none o) && past o now ≡ true) ↔ ((n : ℕ) × (o ≡ some n) × (n < now))
lease-past none now = (λ e. cc (e), λ (n, q, l). cc (q))
lease-past (some m) now =
    (λ e. (m, refl, ground (arith, e)), λ (n, q, l). ground (arith, some-injective _ _ q, l))

-- The statuses that the query names, and the others.
status-cases :
    (s : DeliveryStatus)
    → (s ≡ pending)
      ⊎ ((s ≡ failed)
          ⊎ ((s ≡ sending)
              ⊎ ((is_pending s ≡ false) × (is_failed s ≡ false) × (is_sending s ≡ false))))
status-cases pending = inl refl
status-cases failed = inr (inl refl)
status-cases sending = inr (inr (inl refl))
status-cases sent = inr (inr (inr (refl, refl, refl)))
status-cases DeliveryStatus.dlq = inr (inr (inr (refl, refl, refl)))

ready-IsOpen : (now : ℕ) (d : NotificationDelivery) → (is_ready now d ≡ true) ↔ IsOpen now d
unfolding is_ready
ready-IsOpen now d = elim (status-cases d.status) [
  | inl s ↦ (λ e. inl s, λ o. rw (is_ready, s) refl)
  | inr (inl s) ↦ (
    λ e. inr (
        inl (
          s,
          (retry-due d.next_retry_at now).0 (let g = rw (is_ready, s) at e in ground (arith, g)),
        )),
    λ o. elim o [
      | inl p ↦ cc (s, p)
      | inr (inl (p, r)) ↦
          let k = (retry-due d.next_retry_at now).1 r in rw (is_ready, s) (ground (arith, k))
      | inr (inr (p, r)) ↦ cc (s, p)
    ],
  )
  | inr (inr (inl s)) ↦ (
    λ e. inr (inr (s, (lease-past d.lock_expires_at now).0 (rw (is_ready, s) at e))),
    λ o. elim o [
      | inl p ↦ cc (s, p)
      | inr (inl (p, r)) ↦ cc (s, p)
      | inr (inr (p, r)) ↦
          let k = (lease-past d.lock_expires_at now).1 r in rw (is_ready, s) (ground (arith, k))
    ],
  )
  | inr (inr (inr (x, y, z))) ↦ (
    λ e. cc (rw (is_ready, x, y, z) at e),
    λ o. elim o [
      | inl p ↦ cc (ap is_pending p, x)
      | inr (inl (p, r)) ↦ cc (ap is_failed p, y)
      | inr (inr (p, r)) ↦ cc (ap is_sending p, z)
    ],
  )
]

pub claimable-IsFree :
    (c : Claim) (d : NotificationDelivery)
    → (is_claimable c.event_id c.now c.locked d ≡ true) ↔ IsFree c d
unfolding is_claimable
claimable-IsFree c d = (
  λ e. (
    ground (arith, e),
    ground (arith, e),
    (ready-IsOpen c.now d).0 (ground (arith, e)),
    ground (arith, e),
  ),
  λ (i, n, o, l). let r = (ready-IsOpen c.now d).1 o in ground (arith, i, n, r, l),
)
