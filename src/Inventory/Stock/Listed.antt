-- ===== src/Inventory/Stock/Listed.antt =====
-- The listing of a home's items: app/apis/inventory/services/service.py (get_items) and repository.py
-- (get_by_home).
use mathlib.Core.List.{Memᴰ}
use family_inventory.Prelude.{
  ℕ, zero, suc, ◌+◌, ◌≡◌, ◌≤◌, ◌<◌, ◌⊎◌, Bool, List, [], ◌++◌, Option, none, some, leb,
}
use family_inventory.Notifications.Result.{Result, ok, err}
use family_inventory.Homes.Members.{User}
use family_inventory.Core.Pagination.{PaginatedOutput}
use family_inventory.Inventory.Stock.{Stock, InventoryItem, Items}
use family_inventory.Inventory.Stock.Listing.{
  InventoryFilters, expired, expiring_soon, validate_days_usage, is_listed, get_items,
}

-- ORDER BY created_at DESC
abbrev pub is_newer : InventoryItem → InventoryItem → Bool
is_newer a b = leb b.created_at a.created_at

-- the rows of a page, if the request for it succeeds
abbrev pub results_of : Result (PaginatedOutput InventoryItem) → Items
results_of (ok out) = out.results
results_of (err exc) = []

-- What a client collects that asks for `n` pages from a page on.
abbrev pub collected : (ℕ → Result (PaginatedOutput InventoryItem)) → ℕ → ℕ → Items
collected ask zero page = []
collected ask (suc n) page = results_of (ask page) ++ collected ask n (suc page)

-- What the filters ask of an item's expiry date.
abbrev pub IsExpiring : ℕ → InventoryFilters → Option ℕ → Type 0
IsExpiring today f none = f.expiry ≡ none
IsExpiring today f (some d) =
    (f.expiry ≡ none)
    ⊎ (((f.expiry ≡ some expired) × (d < today))
        ⊎ ((f.expiry ≡ some expiring_soon) × (today ≤ d) × (d ≤ today + f.days)))

-- What the filters ask of an item of a home.
abbrev pub IsWanted : ℕ → ℕ → InventoryFilters → InventoryItem → Type 0
IsWanted h today f r =
    (r.home_id ≡ h)
    × IsExpiring today f r.expiry_date
    × ((f.household_category_id ≡ []) ⊎ Memᴰ r.household_category_id f.household_category_id)

module _ (h today : ℕ) (f : InventoryFilters) (current : User) (s : Stock) where
  abbrev pub listed : InventoryItem → Bool
  listed = is_listed h today (validate_days_usage f)

  abbrev pub ask : ℕ → ℕ → Result (PaginatedOutput InventoryItem)
  ask size page = get_items h today page size f current s
