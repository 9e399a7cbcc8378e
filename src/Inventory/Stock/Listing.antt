-- ===== src/Inventory/Stock/Listing.antt =====
-- The filters and pages of a home's items: app/apis/inventory/schema.py (InventoryFilters), repository.py
-- (get_by_home) and services/service.py (get_items).
use family_inventory.Prelude.{
  ℕ, ◌+◌, Bool, true, ◌&&◌, Option, none, some, List, [], ◌∷◌, ltb, leb, ◌==◌, is_none, select,
  sort_by,
}
use family_inventory.Notifications.Result.{Result, ok, ◌>>◌}
use family_inventory.Homes.Members.{User, require}
use family_inventory.Households
use family_inventory.Households.{inventory_access_denied, user_has_access}
use family_inventory.Core.Pagination.{PaginatedOutput, apply_pagination}
use family_inventory.Inventory.Stock.{InventoryItem, Items, Stock}

pub data ExpiryFilter : Type 0 where
  expired expiring_soon : ExpiryFilter

pub record InventoryFilters : Type 0 where
  pub household_category_id : List ℕ
  pub expiry : Option ExpiryFilter
  pub days : ℕ

-- `validate_days_usage`
unfoldable pub validate_days_usage : InventoryFilters → InventoryFilters
validate_days_usage f = elim f.expiry [ some expiring_soon ↦ f | _ ↦ record f { days = 7 } ]

-- the clauses on the expiry date; a day is a number
abbrev pub passes_expiry : ℕ → InventoryFilters → Option ℕ → Bool
passes_expiry today f none = is_none f.expiry
passes_expiry today f (some d) = elim f.expiry [
  | none ↦ true
  | some expired ↦ ltb d today
  | some expiring_soon ↦ leb today d && leb d (today + f.days)
]

abbrev pub passes_category : List ℕ → ℕ → Bool
passes_category [] k = true
passes_category (i ∷ ids) k = Households.contains_id k (i ∷ ids)

-- the WHERE of `get_by_home`
unfoldable pub is_listed : ℕ → ℕ → InventoryFilters → InventoryItem → Bool
is_listed h today f r =
    r.home_id == h
    && (passes_expiry today f r.expiry_date
        && passes_category f.household_category_id r.household_category_id)

-- `get_by_home`: the rows in the order of the query, and their page.
unfoldable pub get_by_home :
    ℕ → ℕ → ℕ → ℕ → InventoryFilters → Items → PaginatedOutput InventoryItem
get_by_home h today page page_size f t = apply_pagination page page_size (
    sort_by (λ (a b : InventoryItem). leb b.created_at a.created_at)
      (select (is_listed h today f) t))

-- `get_items`; its pages and links are those of `apply_pagination`.
unfoldable pub get_items :
    ℕ → ℕ → ℕ → ℕ → InventoryFilters → User → Stock → Result (PaginatedOutput InventoryItem)
get_items h today page page_size f current s = do
  require inventory_access_denied (user_has_access current.id h s.homes)
  ok (get_by_home h today page page_size (validate_days_usage f) s.items)
