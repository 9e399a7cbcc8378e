-- ===== src/Notifications/Delivery/Reach.antt =====
-- Invariants of the delivery table (app/apis/notifications/models.py, NotificationDelivery) over
-- every interleaving of its workers.
use family_inventory.Prelude.{
  ℕ, ◌≤◌, ◌≡◌, true, false, List, [], ◌∷◌, arith, Bool-cases, Option-cases, inl, inr, All, is_none,
  not,
}
use family_inventory.Prelude.Table
use family_inventory.Prelude.Table.Results.{All-last}
use family_inventory.Prelude.Table.Claim.{All-claim}
use family_inventory.Notifications.Types.{is_sending}
use family_inventory.Notifications.Delivery.{
  NotificationDelivery, Deliveries, key, DeliverySendResult, Claim, is_claimable, mark_sending,
  claim_deliveries_to_send, finalize_delivery_results, is_older, is_settled, settle, result_for,
}
use family_inventory.Notifications.Delivery.Lease.{
  Action, claims, settles, arrives, step, run, step-IsKeyed,
}
use family_inventory.Notifications.Delivery.Claims.{fits, key-mark_sending}

-- Attempts stay within their maximum, and a row is locked exactly while it is being sent.
pub record IsSound (d : NotificationDelivery) : Type 0 where
  pub budget : d.attempt_count ≤ d.max_attempts
  pub locked : is_none d.locked_by ≡ not (is_sending d.status)
  pub leased : is_none d.lock_expires_at ≡ not (is_sending d.status)

-- No result says that its delivery is still being sent, and a new row is sound.
abbrev pub IsFair : Action → Type 0
IsFair (claims c) = Unit
IsFair (settles w rs) = All (λ r. is_sending r.status ≡ false) rs
IsFair (arrives d) = IsSound d

mark_sending-IsSound :
    (c : Claim) (d : NotificationDelivery)
    → is_claimable c.event_id c.now c.locked d ≡ true
    → IsSound d
    → IsSound (mark_sending c.now c.worker_id d)
unfolding is_claimable mark_sending
mark_sending-IsSound c d f h = ground arith

settle-IsSound :
    (w : ℕ) (rs : List DeliverySendResult) (d : NotificationDelivery)
    → All (λ r. is_sending r.status ≡ false) rs
    → is_settled w rs d ≡ true
    → IsSound d
    → IsSound (settle rs d)
unfolding is_settled settle
settle-IsSound w rs d fair e h = elim (Option-cases (result_for d.id rs)) [
  | inl n ↦ ground arith
  | inr (r, s) ↦ ground (
    arith,
    All-last (λ (x : DeliverySendResult). x.delivery_id) (λ x. is_sending x.status ≡ false) d.id rs
        r fair s,
  )
]

step-IsSound :
    (a : Action) (t : Deliveries)
    → Table.IsKeyed key t
    → IsFair a
    → All IsSound t
    → All IsSound (step a t)
unfolding step claim_deliveries_to_send finalize_delivery_results
step-IsSound (claims c) t k fair h =
    All-claim key (fits c) is_older c.claim_limit _ t (key-mark_sending c.now c.worker_id) IsSound k
      (mark_sending-IsSound c) h
step-IsSound (settles w []) t k fair h = h
step-IsSound (settles w (r ∷ rs)) t k fair h =
    Table.All-update IsSound (is_settled w (r ∷ rs)) (settle (r ∷ rs)) t
      (λ d e g. settle-IsSound w (r ∷ rs) d fair e g) h
step-IsSound (arrives d) t k fair h = elim (Bool-cases (Table.has key d.id t)) [
  | inl e ↦ rw e h
  | inr e ↦ rw e (fair, h)
]

-- From a table with different ids and sound rows, over any interleaving of claims, finalizations
-- and arrivals of sound rows in which no result says `sending`, no delivery has more attempts than
-- its maximum, a delivery carries a worker and a lease exactly while it is being sent, and ids stay
-- different.
pub run-IsSound :
    (acts : List Action) (t : Deliveries)
    → Table.IsKeyed key t
    → All IsSound t
    → All IsFair acts
    → Table.IsKeyed key (run acts t) × All IsSound (run acts t)
unfolding run
run-IsSound [] t k h fair = (k, h)
run-IsSound (a ∷ acts) t k h fair =
    run-IsSound acts (step a t) (step-IsKeyed a t k) (step-IsSound a t k fair.0 h) fair.1
