-- ===== src/Inventory/Alerts.antt =====
-- Items and their expiry alerts: app/apis/inventory/models.py and
-- app/apis/inventory/repository.py. A day is a number; ids are numbers.
pub mod Due
pub mod Daily
pub mod Marks
use Prim.Native.String.{String, [], ◌∷◌}
use family_inventory.Prelude.{
  ℕ, zero, suc, ◌+◌, Bool, true, false, not, ◌&&◌, ◌||◌, Option, none, some, List, [], ◌∷◌, map,
  ltb, leb, ◌==◌, is_none, if◌then◌else◌, take, select, exists, sort_by, length,
}
use family_inventory.Prelude.Table

-- app/apis/inventory/types.py
pub data InventoryAlertType : Type 0 where
  expired expiring_soon : InventoryAlertType

abbrev pub alert_type_eq : InventoryAlertType → InventoryAlertType → Bool
alert_type_eq expired expired = true
alert_type_eq expiring_soon expiring_soon = true
alert_type_eq _ _ = false

abbrev pub alert_type_value : InventoryAlertType → String
alert_type_value expired = "expired"
alert_type_value expiring_soon = "expiring_soon"

-- `product_name` is the name of the product that the item refers to.
pub record InventoryItem : Type 0 where
  pub id : ℕ
  pub home_id : ℕ
  pub product_name : String
  pub expiry_date : Option ℕ
  pub created_at : ℕ

pub record InventoryExpiryAlert : Type 0 where
  pub id : ℕ
  pub inventory_item_id : ℕ
  pub alert_type : InventoryAlertType
  pub alert_date : ℕ
  pub published_at : Option ℕ
  pub publish_attempts : ℕ
  pub last_publish_error : Option String

abbrev pub Alerts : Type 0
Alerts = List InventoryExpiryAlert

abbrev pub alert_key : InventoryExpiryAlert → ℕ
alert_key a = a.id

abbrev pub item_key : InventoryItem → ℕ
item_key i = i.id

-- A call of `register_expiry_alerts`; `new_id` is the uuid4 of the row of an item.
pub record Registration : Type 0 where
  pub alert_type : InventoryAlertType
  pub today : ℕ
  pub days : ℕ
  pub home_id : Option ℕ
  pub limit : ℕ
  pub new_id : ℕ → ℕ

-- `expiry_date IS NOT NULL`, and the test of the alert's type
abbrev pub expires : Registration → Option ℕ → Bool
expires r none = false
expires r (some d) = elim r.alert_type [
  | expired ↦ ltb d r.today
  | expiring_soon ↦ leb r.today d && leb d (r.today + r.days)
]

-- `home_id == value` if there is a value
abbrev pub in_home : Option ℕ → ℕ → Bool
in_home none h = true
in_home (some v) h = h == v

unfoldable pub is_candidate : Registration → InventoryItem → Bool
is_candidate r i = expires r i.expiry_date && in_home r.home_id i.home_id

abbrev pub date_of : InventoryItem → ℕ
date_of i = elim i.expiry_date [ none ↦ 0 | some d ↦ d ]

-- ORDER BY expiry_date, created_at
abbrev pub is_earlier : InventoryItem → InventoryItem → Bool
is_earlier a b =
    ltb (date_of a) (date_of b) || (date_of a == date_of b && leb a.created_at b.created_at)

unfoldable pub candidate_ids : Registration → List InventoryItem → List ℕ
candidate_ids r items =
    map item_key (take r.limit (sort_by is_earlier (select (is_candidate r) items)))

unfoldable pub new_alert : Registration → ℕ → InventoryExpiryAlert
new_alert r i = record {
  id = r.new_id i;
  inventory_item_id = i;
  alert_type = r.alert_type;
  alert_date = r.today;
  published_at = none;
  publish_attempts = 0;
  last_publish_error = none;
}

-- the unique constraint uq_item_alert_once_per_day: the item, the type and the day
abbrev pub same_alert : InventoryExpiryAlert → InventoryExpiryAlert → Bool
same_alert a b =
    a.inventory_item_id == b.inventory_item_id
    && (alert_type_eq a.alert_type b.alert_type && a.alert_date == b.alert_date)

-- INSERT .. ON CONFLICT DO NOTHING RETURNING id: the table afterwards, and the ids inserted.
unfoldable pub insert_alerts : Registration → List ℕ → Alerts → Alerts × List ℕ
insert_alerts r [] t = (t, [])
insert_alerts r (i ∷ is) t =
    let a = new_alert r i in
    let known = exists (same_alert a) t in
    let (t', ids) = insert_alerts r is (if known then t else a ∷ t) in
    (t', if known then ids else a.id ∷ ids)

unfoldable pub register_expiry_alerts : Registration → List InventoryItem → Alerts → Alerts × List ℕ
register_expiry_alerts r items t = insert_alerts r (candidate_ids r items) t

-- A call of `get_unpublished_alerts_with_items`; the locked alerts and items are those that SKIP
-- LOCKED passes over.
pub record Fetch : Type 0 where
  pub alert_type : Option InventoryAlertType
  pub home_id : Option ℕ
  pub limit : ℕ
  pub max_attempts : ℕ
  pub locked : ℕ → Bool
  pub locked_item : ℕ → Bool

abbrev pub is_type : Option InventoryAlertType → InventoryAlertType → Bool
is_type none x = true
is_type (some v) x = alert_type_eq x v

-- the WHERE of an alert with its item
unfoldable pub is_unpublished : Fetch → InventoryExpiryAlert × InventoryItem → Bool
is_unpublished f (a, i) =
    is_none a.published_at
    && (ltb a.publish_attempts f.max_attempts
        && (is_type f.alert_type a.alert_type
            && (in_home f.home_id i.home_id && not (f.locked a.id || f.locked_item i.id))))

-- The JOIN with the items.
unfoldable pub with_items :
    List InventoryItem → Alerts → List (InventoryExpiryAlert × InventoryItem)
with_items items [] = []
with_items items (a ∷ t) =
    let rest = with_items items t in
    elim (Table.get item_key a.inventory_item_id items) [ none ↦ rest | some i ↦ (a, i) ∷ rest ]

-- ORDER BY alert_date, id
abbrev pub is_sooner :
    InventoryExpiryAlert × InventoryItem → InventoryExpiryAlert × InventoryItem → Bool
is_sooner (a, i) (b, j) =
    ltb a.alert_date b.alert_date || (a.alert_date == b.alert_date && leb a.id b.id)

unfoldable pub get_unpublished_alerts_with_items :
    Fetch → List InventoryItem → Alerts → List (InventoryExpiryAlert × InventoryItem)
get_unpublished_alerts_with_items f items t =
    take f.limit (sort_by is_sooner (select (is_unpublished f) (with_items items t)))

-- the WHERE of both marks
unfoldable pub is_marked : List ℕ → InventoryExpiryAlert → Bool
is_marked ids a = exists (λ i. i == a.id) ids && is_none a.published_at

-- The table afterwards, and the number of rows updated.
unfoldable pub mark_alerts_published : List ℕ → ℕ → Alerts → Alerts × ℕ
mark_alerts_published ids now t = (
  Table.update (is_marked ids)
      (λ a. record a {
        published_at = some now;
        publish_attempts = a.publish_attempts + 1;
        last_publish_error = none;
      })
      t,
  length (select (is_marked ids) t),
)

-- `s[:n]`
pub cut : ℕ → String → String
cut zero s = []
cut (suc n) [] = []
cut (suc n) (c ∷ s) = c ∷ cut n s

unfoldable pub mark_alerts_failed : List ℕ → String → Alerts → Alerts × ℕ
unfolding cut
mark_alerts_failed ids error t = (
  Table.update (is_marked ids)
      (λ a. record a {
        publish_attempts = a.publish_attempts + 1;
        last_publish_error = some (cut 2000 error);
      })
      t,
  length (select (is_marked ids) t),
)
