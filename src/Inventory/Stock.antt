-- ===== src/Inventory/Stock.antt =====
-- The items of a home: app/apis/inventory/models.py (InventoryItem), schema.py, repository.py and
-- services/service.py.
pub mod Listing
pub mod Consistent
pub mod Kept
pub mod Requests
pub mod Stays
pub mod Page
pub mod Added
pub mod Access
pub mod Listed
use family_inventory.Prelude.{
  ℕ, ◌+◌, String, Bool, true, false, not, ◌&&◌, ◌||◌, Option, none, some, List, [], ◌∷◌, map, ltb,
  leb, ◌==◌, if◌then◌else◌, is_none, exists, select, sort_by,
}
use family_inventory.Prelude.Table
use family_inventory.Prelude.Integers.{ℤ}
use family_inventory.Notifications.Errors.{Exception}
use family_inventory.Notifications.Result.{Result, ok, err, ◌>>=◌, ◌>>◌}
use family_inventory.Homes.Members.{User, Homes, raise, required, require, get_home, user_is_owner}
use family_inventory.Households
use family_inventory.Households.{
  Categories, HouseholdCategory, lock_for_inventory, inventory_access_denied, user_has_access,
}
use family_inventory.Products
use family_inventory.Products.{Products, get_many}
use family_inventory.Core.Pagination.{PaginatedOutput, apply_pagination}

pub record InventoryItem : Type 0 where
  pub id : ℕ
  pub home_id : ℕ
  pub created_by : Option ℕ
  pub product_id : ℕ
  pub household_category_id : ℕ
  pub quantity : ℤ
  pub unit : String
  pub expiry_date : Option ℕ
  pub notes : Option String
  pub created_at : ℕ

abbrev pub Items : Type 0
Items = List InventoryItem

abbrev pub key : InventoryItem → ℕ
key r = r.id

-- The tables that the service reads and writes.
pub record Stock : Type 0 where
  pub homes : Homes
  pub categories : Categories
  pub products : Products
  pub items : Items

abbrev pub with_items : Items → Stock → Stock
with_items t s = record s { items = t }

pub record InventoryCreateRequest : Type 0 where
  pub product_id : ℕ
  pub household_category_id : ℕ
  pub quantity : ℤ
  pub unit : String
  pub expiry_date : Option ℕ
  pub notes : Option String

-- A field of an update: left out, set to null, or set to a value.
pub data Field (A : Type 0) : Type 0 where
  unset null : Field A
  value : A → Field A

pub record InventoryUpdateRequest : Type 0 where
  pub product_id : Field ℕ
  pub household_category_id : Field ℕ
  pub quantity : Field ℤ
  pub unit : Field String
  pub expiry_date : Field ℕ
  pub notes : Field String

abbrev pub item_not_found : Exception
item_not_found = raise "InventoryItemNotFound" ""

abbrev pub category_invalid : Exception
category_invalid = raise "InventoryCategoryInvalid" ""

abbrev pub product_not_found : Exception
product_not_found = raise "ProductNotFound" ""

-- A category of the home, found by `lock_for_inventory` among the given ones.
unfoldable pub is_allowed : ℕ → List ℕ → Categories → ℕ → Bool
is_allowed h ids t k = exists (λ (c : HouseholdCategory). c.id == k) (lock_for_inventory h ids t)

-- An active product, found by `get_many` among the given ones.
unfoldable pub is_valid_product : List ℕ → Products → ℕ → Bool
is_valid_product ids t k = exists (λ (r : Products.Product). r.id == k) (get_many ids false t)

-- The row of a request; `r.0` is the uuid4 of the row.
abbrev pub new_item : ℕ → ℕ → ℕ → ℕ × InventoryCreateRequest → InventoryItem
new_item h created_by now r = record {
  id = r.0;
  home_id = h;
  created_by = some created_by;
  product_id = r.1.product_id;
  household_category_id = r.1.household_category_id;
  quantity = r.1.quantity;
  unit = r.1.unit;
  expiry_date = r.1.expiry_date;
  notes = r.1.notes;
  created_at = now;
}

abbrev pub category_ids : List (ℕ × InventoryCreateRequest) → List ℕ
category_ids items = map (λ r. r.1.household_category_id) items

abbrev pub product_ids : List (ℕ × InventoryCreateRequest) → List ℕ
product_ids items = map (λ r. r.1.product_id) items

-- some item whose category is not one of the home
abbrev pub has_bad_category : ℕ → List (ℕ × InventoryCreateRequest) → Stock → Bool
has_bad_category h items s =
    exists (λ r. not (is_allowed h (category_ids items) s.categories r.1.household_category_id))
      items

-- some item without an active product
abbrev pub has_bad_product : List (ℕ × InventoryCreateRequest) → Stock → Bool
has_bad_product items s =
    exists (λ r. not (is_valid_product (product_ids items) s.products r.1.product_id)) items

-- The INSERT of rows, which the primary key can refuse.
unfoldable pub insert_all : List InventoryItem → Items → Result Items
insert_all [] t = ok t
insert_all (r ∷ rs) t = do
  t' ← insert_all rs t
  require (raise "IntegrityError" "") (not (Table.has key r.id t'))
  ok (r ∷ t')

-- `add_items`: all of the items, or none. The checked rows are still there when the items are
-- inserted.
unfoldable pub add_items : ℕ → List (ℕ × InventoryCreateRequest) → User → ℕ → Stock → Result Stock
add_items h items current now s = do
  home ← required (raise "HomeNotFound" "") (get_home h s.homes)
  require inventory_access_denied (current.is_admin || user_is_owner current.id h s.homes)
  require category_invalid (not (has_bad_category h items s))
  require product_not_found (not (has_bad_product items s))
  rows ← insert_all (map (new_item h current.id now) items) s.items
  ok (with_items rows s)

-- `get_by_id`, and the item's home
abbrev pub get_item : ℕ → ℕ → Items → Option InventoryItem
get_item h item_id t = elim (Table.get key item_id t) [
  | none ↦ none
  | some r ↦ if r.home_id == h then some r else none
]

-- the checks of a new category
unfoldable pub check_category : ℕ → Field ℕ → Categories → Result (Unit {0})
check_category h unset t = ok tt
check_category h null t = err category_invalid
check_category h (value k) t = require category_invalid (is_allowed h (k ∷ []) t k)

-- the check of a new product
unfoldable pub check_product : Field ℕ → Products → Result (Unit {0})
check_product unset t = ok tt
check_product null t = err product_not_found
check_product (value k) t = require product_not_found (not (is_none (Products.get_by_id k false t)))

-- `setattr` of a column, and of one that may be null
abbrev pub assign : {A : Type 0} → Field A → A → A
assign unset old = old
assign null old = old
assign (value v) old = v

abbrev pub assign_nullable : {A : Type 0} → Field A → Option A → Option A
assign_nullable unset old = old
assign_nullable null old = none
assign_nullable (value v) old = some v

abbrev pub is_null : {A : Type 0} → Field A → Bool
is_null null = true
is_null _ = false

abbrev pub updated : InventoryUpdateRequest → InventoryItem → InventoryItem
updated u r = record r {
  product_id = assign u.product_id r.product_id;
  household_category_id = assign u.household_category_id r.household_category_id;
  quantity = assign u.quantity r.quantity;
  unit = assign u.unit r.unit;
  expiry_date = assign_nullable u.expiry_date r.expiry_date;
  notes = assign_nullable u.notes r.notes;
}

-- the new rows of `update_item`, after its checks
abbrev pub with_update : ℕ → InventoryUpdateRequest → Stock → Stock
with_update item_id u s = with_items (Table.update (λ r. r.id == item_id) (updated u) s.items) s

-- `update_item`. An update without a field changes nothing, like the assignment of no column. The
-- columns of the quantity and the unit are NOT NULL.
unfoldable pub update_item : ℕ → ℕ → InventoryUpdateRequest → User → Stock → Result Stock
update_item h item_id u current s = do
  item ← required item_not_found (get_item h item_id s.items)
  require inventory_access_denied (current.is_admin || user_is_owner current.id h s.homes)
  check_category h u.household_category_id s.categories
  check_product u.product_id s.products
  require (raise "IntegrityError" "") (not (is_null u.quantity || is_null u.unit))
  ok (with_update item_id u s)

unfoldable pub delete_item : ℕ → ℕ → User → Stock → Result Stock
delete_item h item_id current s = do
  item ← required item_not_found (get_item h item_id s.items)
  require inventory_access_denied (current.is_admin || user_is_owner current.id h s.homes)
  ok (with_items (select (λ r. not (r.id == item_id)) s.items) s)
