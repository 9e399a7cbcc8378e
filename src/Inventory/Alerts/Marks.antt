-- ===== src/Inventory/Alerts/Marks.antt =====
-- Publishing marks: `mark_alerts_published` and `mark_alerts_failed` of
-- app/apis/inventory/repository.py.
use family_inventory.Prelude.{
  ℕ, ◌≤◌, ◌<◌, ◌≡◌, ◌∙◌, refl, String, true, false, none, some, List, arith, All, All-imply, length,
  length-take-le, take, sort_by, All-select_self, All-sort_by, All-take, select,
}
use family_inventory.Prelude.Table
use family_inventory.Inventory.Alerts.{
  InventoryItem, InventoryExpiryAlert, Alerts, alert_key, Fetch, is_marked, is_unpublished,
  with_items, is_sooner, get_unpublished_alerts_with_items, mark_alerts_published,
  mark_alerts_failed,
}

published-is_marked :
    (ids : List ℕ) (at : ℕ) (a : InventoryExpiryAlert)
    → a.published_at ≡ some at
    → is_marked ids a ≡ false
unfolding is_marked
published-is_marked ids at a p = ground (arith, p)

-- A published alert keeps its time of publication and its count of attempts, whichever ids are
-- marked later.
pub published_stays :
    (ids : List ℕ) (now : ℕ) (error : String) (t : Alerts) (i at : ℕ) (a : InventoryExpiryAlert)
    → Table.get alert_key i t ≡ some a
    → a.published_at ≡ some at
    → (Table.get alert_key i (mark_alerts_published ids now t).0 ≡ some a)
      × (Table.get alert_key i (mark_alerts_failed ids error t).0 ≡ some a)
unfolding mark_alerts_published mark_alerts_failed
published_stays ids now error t i at a here p =
    let spared = published-is_marked ids at a p in
    (
      Table.get-update alert_key i (is_marked ids) _ t (λ a. refl) ∙ rw (here, spared) refl,
      Table.get-update alert_key i (is_marked ids) _ t (λ a. refl) ∙ rw (here, spared) refl,
    )

unpublished-facts :
    (f : Fetch) (r : InventoryExpiryAlert × InventoryItem)
    → is_unpublished f r ≡ true
    → (r.0.published_at ≡ none) × (r.0.publish_attempts < f.max_attempts)
unfolding is_unpublished
unpublished-facts f (a, i) h = ground arith

-- What is fetched for publishing is at most `limit` alerts, each unpublished and with attempts left.
pub fetched_unpublished :
    (f : Fetch) (items : List InventoryItem) (t : Alerts)
    → let rows = get_unpublished_alerts_with_items f items t in
      (length rows ≤ f.limit)
      × All (λ r. (r.0.published_at ≡ none) × (r.0.publish_attempts < f.max_attempts)) rows
unfolding get_unpublished_alerts_with_items
fetched_unpublished f items t =
    let l = select (is_unpublished f) (with_items items t) in
    (
      length-take-le f.limit (sort_by is_sooner l),
      All-imply _ _ (take f.limit (sort_by is_sooner l)) (unpublished-facts f) (
          All-take _ f.limit (sort_by is_sooner l)
            (All-sort_by _ is_sooner l (All-select_self (is_unpublished f) (with_items items t)))),
    )
