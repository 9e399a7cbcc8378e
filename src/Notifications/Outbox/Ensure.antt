-- ===== src/Notifications/Outbox/Ensure.antt =====
-- One outbox row per event: `ensure` of app/apis/notifications/repository/outbox_repository.py.
use family_inventory.Prelude.{
  ℕ, ◌≡◌, refl, sym, ap, ◌∙◌, false, Option-cases, none, some, inl, inr, arith, [], ◌∷◌,
}
use family_inventory.Prelude.Table
use family_inventory.Notifications.Outbox.{NotificationOutbox, Outbox, event_key, ensure}

has-of-none :
    (i : ℕ) (t : Outbox) → Table.get event_key i t ≡ none → Table.has event_key i t ≡ false
has-of-none i [] h = refl
has-of-none i (r ∷ t) h = ground (arith, has-of-none i t)

pub ensure-new :
    (v : NotificationOutbox) (t : Outbox)
    → Table.get event_key v.event_id t ≡ none
    → ensure v t ≡ (v ∷ t, (v.id, v.status, v.attempt_count))
unfolding ensure
ensure-new v t e = rw (e, ensure)

pub ensure-old :
    (v r : NotificationOutbox) (t : Outbox)
    → Table.get event_key v.event_id t ≡ some r
    → ensure v t ≡ (t, (r.id, r.status, r.attempt_count))
unfolding ensure
ensure-old v r t e = rw (e, ensure)

-- In an outbox with different event ids, ensuring a row keeps them different, and afterwards there
-- is a row of the event, which has the id, the status and the attempts that are returned.
pub ensure_unique :
    (v : NotificationOutbox) (t : Outbox)
    → Table.IsKeyed event_key t
    → let (t', (i, s, n)) = ensure v t in
      Table.IsKeyed event_key t'
      × ((r : NotificationOutbox) × (Table.get event_key v.event_id t' ≡ some r)
          × (r.id ≡ i)
          × (r.status ≡ s)
          × (r.attempt_count ≡ n))
ensure_unique v t k = elim (Option-cases (Table.get event_key v.event_id t)) [
  | inl e ↦
      rw (ensure-new v t e) ((has-of-none v.event_id t e, k), (v, ground arith, refl, refl, refl))
  | inr (r, e) ↦ rw (ensure-old v r t e) (k, (r, e, refl, refl, refl))
]

-- Ensuring a second row for the event of a row that was ensured leaves the table as it is and
-- returns the same id, status and attempts.
pub ensure_again :
    (v w : NotificationOutbox) (t : Outbox)
    → v.event_id ≡ w.event_id
    → ensure w (ensure v t).0 ≡ ensure v t
ensure_again v w t e = elim (Option-cases (Table.get event_key v.event_id t)) [
  | inl n ↦ rw (ensure-new v t n) (ensure-old w v (v ∷ t) (ground arith))
  | inr (r, s) ↦
      rw (ensure-old v r t s) (ensure-old w r t (ap (λ i. Table.get event_key i t) (sym e) ∙ s))
]
