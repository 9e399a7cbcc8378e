-- ===== src/Notifications/Delivery/Settles.antt =====
-- What `finalize_delivery_results` of app/apis/notifications/worker/handlers.py does to the table.
use mathlib.Core.Option
use family_inventory.Prelude.{
  ℕ, ◌≡◌, false, some, List, [], ◌∷◌, arith, if◌then◌else◌, Option-cases, ◌⊎◌, inl, inr,
}
use family_inventory.Prelude.Table
use family_inventory.Prelude.Table.Results.{last}
use family_inventory.Notifications.Types.{is_sending}
use family_inventory.Notifications.Delivery.{
  holds, NotificationDelivery, Deliveries, key, DeliverySendResult, is_settled, settle,
  finalize_delivery_results,
}

key-settle : (rs : List DeliverySendResult) (d : NotificationDelivery) → key (settle rs d) ≡ key d
unfolding settle
key-settle rs d = ground arith

-- The table after a finalization, row by row: a row that has a result, is held by this worker and
-- is still sending takes the result and loses its lock; every other row is as it was.
pub finalize_exact :
    (w : ℕ) (rs : List DeliverySendResult) (t : Deliveries) (i : ℕ)
    → Table.get key i (finalize_delivery_results w rs t).0
      ≡ Option.map (λ d. if is_settled w rs d then settle rs d else d) (Table.get key i t)
unfolding finalize_delivery_results is_settled last
finalize_exact w [] t i = elim (Option-cases (Table.get key i t)) [
  | inl e ↦ rw e
  | inr (d, e) ↦ rw e
]
finalize_exact w (r ∷ rs) t i =
    Table.get-update key i (is_settled w (r ∷ rs)) (settle (r ∷ rs)) t (key-settle (r ∷ rs))

pub finalize-get :
    (w : ℕ) (rs : List DeliverySendResult) (t : Deliveries) (i : ℕ) (d : NotificationDelivery)
    → Table.get key i t ≡ some d
    → Table.get key i (finalize_delivery_results w rs t).0
      ≡ some (if is_settled w rs d then settle rs d else d)
finalize-get w rs t i d here = rw (finalize_exact w rs t i, here)

pub finalize-IsKeyed :
    (w : ℕ) (rs : List DeliverySendResult) (t : Deliveries)
    → Table.IsKeyed key t
    → Table.IsKeyed key (finalize_delivery_results w rs t).0
unfolding finalize_delivery_results
finalize-IsKeyed w [] t h = h
finalize-IsKeyed w (r ∷ rs) t h =
    Table.update-IsKeyed key (is_settled w (r ∷ rs)) (settle (r ∷ rs)) t (key-settle (r ∷ rs)) h

-- A row that this worker does not hold, or that is not sending, is left alone.
pub not-settled :
    (w : ℕ) (rs : List DeliverySendResult) (d : NotificationDelivery)
    → (holds d.locked_by w ≡ false) ⊎ (is_sending d.status ≡ false)
    → is_settled w rs d ≡ false
unfolding is_settled
not-settled w rs d h = ground arith
