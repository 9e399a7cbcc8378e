-- ===== src/Jobs/Expiry/Drained.antt =====
-- The expiry job publishes until nothing is left: app/jobs/inventory_expiry_job.py.
use mathlib.Core.Path.{subst}
use family_inventory.Prelude.{
  ℕ, zero, suc, ◌+◌, ◌-◌, ◌≤◌, ◌<◌, ◌≡◌, refl, ap, String, Bool, true, ◌&&◌, ◌||◌, Option, none,
  some, List, [], ◌∷◌, ◌⊎◌, ◌==◌, ==_iff, arith, Option-cases, inl, inr, exists, All, All-imply,
  All-both, All-select, All-select_self, All-sort_by, All-take, select, sort_by, take, is_none, ltb,
  if◌then◌else◌,
}
use family_inventory.Prelude.Table
use family_inventory.Notifications.Errors.{Exception}
use family_inventory.Notifications.Outbox.{Outbox}
use family_inventory.Inventory.Alerts.{
  InventoryItem, InventoryExpiryAlert, InventoryAlertType, Alerts, alert_type_eq, is_marked,
  is_unpublished, with_items, is_sooner, get_unpublished_alerts_with_items, mark_alerts_published,
  mark_alerts_failed, item_key,
}
use family_inventory.Jobs.Expiry.{
  State, Results, Run, publish_one, publish_batch, collected, join, mark_batch, fetch_of, rows_of,
  after_batch, publish_and_mark,
}

-- An alert of a type that is unpublished and has attempts left, and how many it has left.
abbrev pub is_open : InventoryAlertType → InventoryExpiryAlert → Bool
is_open alert_type a =
    is_none a.published_at && (ltb a.publish_attempts 5 && alert_type_eq alert_type a.alert_type)

abbrev pub weight : InventoryAlertType → InventoryExpiryAlert → ℕ
weight alert_type a = if is_open alert_type a then 5 - a.publish_attempts else 0

-- The attempts that the alerts of a type have left.
abbrev pub attempts_left : InventoryAlertType → Alerts → ℕ
attempts_left alert_type [] = 0
attempts_left alert_type (a ∷ t) = weight alert_type a + attempts_left alert_type t

List-cases : {A : Type 0} (l : List A) → (l ≡ []) ⊎ ((x : A) × (xs : List A) × (l ≡ x ∷ xs))
List-cases [] = inl refl
List-cases (x ∷ xs) = inr (x, xs, refl)

exists-imply :
    {A : Type 0} (p q : A → Bool) (t : List A)
    → ((a : A) → p a ≡ true → q a ≡ true)
    → exists p t ≡ true
    → exists q t ≡ true
exists-imply p q [] f h = h
exists-imply p q (a ∷ t) f h = ground (arith, f a, exists-imply p q t f, h)

-- the id of an alert is among the ids of a batch
abbrev is_in : List ℕ → List ℕ → InventoryExpiryAlert → Bool
is_in ids js a = exists (λ i. i == a.id) ids || exists (λ i. i == a.id) js

module _ (ty : InventoryAlertType) (ids js : List ℕ) (now : ℕ) (e : String) where
  abbrev marked : Alerts → Alerts
  marked t = (mark_alerts_failed js e (mark_alerts_published ids now t).0).0

  left-marked_le : (t : Alerts) → attempts_left ty (marked t) ≤ attempts_left ty t
  unfolding mark_alerts_failed mark_alerts_published is_marked
  left-marked_le [] = omega arith
  left-marked_le (a ∷ t) = ground (arith, left-marked_le t)

  left-marked_lt :
      (t : Alerts)
      → exists (λ a. is_open ty a && is_in ids js a) t ≡ true
      → attempts_left ty (marked t) < attempts_left ty t
  unfolding mark_alerts_failed mark_alerts_published is_marked
  left-marked_lt [] h = cc
  left-marked_lt (a ∷ t) h = ground (arith, h, left-marked_le t, left-marked_lt t)

module _ (r : Run) (ty : InventoryAlertType) where
  collected-hit :
      (exc : Option Exception) (x : Results) (a : InventoryExpiryAlert)
      → let y = collected r a.id exc x in is_in y.published_ids y.failed_ids a ≡ true
  collected-hit none x a = ground arith
  collected-hit (some exc) x a = ground arith

  collected-keeps :
      (exc : Option Exception) (x : Results) (i : ℕ) (a : InventoryExpiryAlert)
      → is_in x.published_ids x.failed_ids a ≡ true
      → let y = collected r i exc x in is_in y.published_ids y.failed_ids a ≡ true
  collected-keeps none x i a h = ground (arith, h)
  collected-keeps (some exc) x i a h = ground (arith, h)

  -- Every row of a batch is published or failed.
  publish_batch-covers :
      (rows : List (InventoryExpiryAlert × InventoryItem)) (t : Outbox)
      → let x = publish_batch r ty rows t in
        All (λ row. is_in x.published_ids x.failed_ids row.0 ≡ true) rows
  unfolding publish_batch
  publish_batch-covers [] t = tt
  publish_batch-covers ((a, i) ∷ rows) t =
      let (t', exc) = publish_one r ty a i t in
      let x = publish_batch r ty rows t' in
      (
        collected-hit exc x a,
        All-imply _ _ rows (λ row h. collected-keeps exc x a.id row.0 h)
            (publish_batch-covers rows t'),
      )

  -- An open alert of the table that has the id of a row.
  abbrev stands : Alerts → InventoryExpiryAlert × InventoryItem → Bool
  stands t row = exists (λ a. is_open ty a && a.id == row.0.id) t

  abbrev Stands : Alerts → InventoryExpiryAlert × InventoryItem → Type 0
  Stands t row = is_open ty row.0 ≡ true → stands t row ≡ true

  stands-cons :
      (a : InventoryExpiryAlert) (t : Alerts) (row : InventoryExpiryAlert × InventoryItem)
      → stands t row ≡ true
      → stands (a ∷ t) row ≡ true
  stands-cons a t row h = ground (arith, h)

  stands_self :
      (a : InventoryExpiryAlert) (t : Alerts) (i : InventoryItem)
      → is_open ty a ≡ true
      → stands (a ∷ t) (a, i) ≡ true
  stands_self a t i o = ground (arith, o)

  with_items-stand : (items : List InventoryItem) (t : Alerts) → All (Stands t) (with_items items t)
  unfolding with_items
  with_items-stand items [] = tt
  with_items-stand items (a ∷ t) =
      let rest =
        All-imply (Stands t) (Stands (a ∷ t)) (with_items items t)
          (λ row g o. stands-cons a t row (g o)) (with_items-stand items t) in
      elim (Option-cases (Table.get item_key a.inventory_item_id items)) [
        | inl e ↦ rw (with_items, e) rest
        | inr (i, e) ↦ rw (with_items, e) (stands_self a t i, rest)
      ]

  unpublished-open :
      (row : InventoryExpiryAlert × InventoryItem)
      → is_unpublished (fetch_of r ty) row ≡ true
      → is_open ty row.0 ≡ true
  unfolding is_unpublished fetch_of
  unpublished-open (a, i) h = ground arith

  rows-stand : (s : State) → All (λ row. stands s.alerts row ≡ true) (rows_of r ty s)
  unfolding rows_of get_unpublished_alerts_with_items fetch_of
  rows-stand s =
      let f = fetch_of r ty in
      let all = with_items r.items s.alerts in
      let chosen = select (is_unpublished f) all in
      All-take (λ row. stands s.alerts row ≡ true) r.limit (sort_by is_sooner chosen)
        (All-sort_by (λ row. stands s.alerts row ≡ true) is_sooner chosen
          (All-imply (λ row. (is_unpublished f row ≡ true) × Stands s.alerts row)
            (λ row. stands s.alerts row ≡ true) chosen (λ row g. g.1 (unpublished-open row g.0))
            (All-both (λ row. is_unpublished f row ≡ true) (Stands s.alerts) chosen
              (All-select_self (is_unpublished f) all)
              (All-select (Stands s.alerts) (is_unpublished f) all
                (with_items-stand r.items s.alerts)))))

  -- A row of the batch stands for an open alert that the batch marks.
  open-marked :
      (ids js : List ℕ) (t : Alerts) (row : InventoryExpiryAlert × InventoryItem)
      → stands t row ≡ true
      → is_in ids js row.0 ≡ true
      → exists (λ a. is_open ty a && is_in ids js a) t ≡ true
  open-marked ids js t row h g =
      exists-imply (λ a. is_open ty a && a.id == row.0.id) (λ a. is_open ty a && is_in ids js a) t
        (λ a e.
          let same : a.id ≡ row.0.id = (==_iff a.id row.0.id).0 (ground (arith, e)) in
          ground (
            arith,
            e,
            g,
            ap (λ k. exists (λ i. i == k) ids) same,
            ap (λ k. exists (λ i. i == k) js) same,
          ))
        h

  after_batch-lt :
      (row : InventoryExpiryAlert × InventoryItem)
      (rest : List (InventoryExpiryAlert × InventoryItem)) (s : State)
      → rows_of r ty s ≡ row ∷ rest
      → attempts_left ty (after_batch r ty (row ∷ rest) s).alerts < attempts_left ty s.alerts
  unfolding after_batch mark_batch
  after_batch-lt row rest s e =
      let x = publish_batch r ty (row ∷ rest) s.outbox in
      left-marked_lt ty x.published_ids x.failed_ids r.now (join r (take 3 x.errors)) s.alerts (
        open-marked x.published_ids x.failed_ids s.alerts row
          (subst (λ rows. All (λ row. stands s.alerts row ≡ true) rows) e (rows-stand s)).0
          (publish_batch-covers (row ∷ rest) s.outbox).0)

  -- If a run has more batches than its type's alerts have attempts left, it ends because nothing is
  -- left to fetch, and not because of the limit on its batches.
  pub job_drains :
      (n : ℕ) (s : State)
      → attempts_left ty s.alerts < n
      → rows_of r ty (publish_and_mark r ty n s).0 ≡ []
  unfolding publish_and_mark
  job_drains zero s h = absurd (omega arith)
  job_drains (suc n) s h = elim (List-cases (rows_of r ty s)) [
    | inl e ↦ rw (publish_and_mark, e) e
    | inr (row, rest, e) ↦
        let fewer = after_batch-lt row rest s e in
        rw (publish_and_mark, e) (job_drains n (after_batch r ty (row ∷ rest) s) (omega arith))
  ]
