-- ===== src/Inventory/Alerts/Daily.antt =====
-- One alert per item, type and day: `register_expiry_alerts` of app/apis/inventory/repository.py.
use mathlib.Core.List.{Memᴰ}
use family_inventory.Prelude.{◌≡◌, false, List, [], ◌∷◌, exists}
use family_inventory.Inventory.Alerts.{
  InventoryItem, InventoryExpiryAlert, Alerts, Registration, same_alert,
}

-- No two alerts share their item, type and day: the unique constraint.
abbrev pub IsDaily : Alerts → Type 0
IsDaily [] = Unit
IsDaily (a ∷ t) = (exists (same_alert a) t ≡ false) × IsDaily t

-- An alert of the day for an item.
abbrev pub IsAlertOf : Registration → InventoryItem → InventoryExpiryAlert → Type 0
IsAlertOf r x a =
    (a.inventory_item_id ≡ x.id) × (a.alert_type ≡ r.alert_type) × (a.alert_date ≡ r.today)
