-- ===== src/Tests/Stock.antt =====
-- Items, categories, products, the inbox and subscriptions at concrete rows.
use family_inventory.Prelude.{ℕ, ◌≡◌, refl, Bool, true, false, none, some, List, [], ◌∷◌, All, leb}
use family_inventory.Prelude.Table
use family_inventory.Prelude.Integers.{pos}
use family_inventory.Notifications.Result.{ok, err}
use family_inventory.Homes.Members.{User, Homes, owner, guest, user_is_owner, require, required}
use family_inventory.Homes.Members.Guards.{after}
use family_inventory.Households.{delete_category, in_use, HouseholdCategory, lock_for_inventory}
use family_inventory.Products.{Product, Products, Scan, find_or_create_by_barcode, get_many}
use family_inventory.Products.Barcodes.{scan_again}
use family_inventory.Inventory.Stock.{
  Stock, InventoryItem, InventoryCreateRequest, InventoryUpdateRequest, unset, value, key, new_item,
  add_items, update_item, delete_item, is_allowed, is_valid_product, insert_all, with_items,
}
use family_inventory.Inventory.Stock.Listing.{InventoryFilters}
use family_inventory.Inventory.Stock.Page.{
  SettingsPage, get_settings, list_members_with_users, count_decides,
}
use family_inventory.Homes.Listing.{joined}
use mathlib.Core.List.Memᴰ.{head}
use family_inventory.Homes.Settings.{managed_home}
use family_inventory.Inventory.Stock.Consistent.{IsConsistent}
use family_inventory.Inventory.Stock.Requests.{is_used, adds, changes, drops, scans, serve_all}
use family_inventory.Inventory.Stock.Stays.{serve_all-IsConsistent}
use family_inventory.Inventory.Stock.Access.{IsLocal, other_homes_untouched}
use family_inventory.Inventory.Stock.Added.{added_found}

abbrev ann : User
ann = record { id = 1; username = "ann"; email = "ann@b.c"; is_admin = false }

abbrev bob : User
bob = record { id = 2; username = "bob"; email = "bob@b.c"; is_admin = false }

abbrev homes : Homes
homes = record {
  homes = record { id = 3; name = "Flat" } ∷ [];
  members =
      record { user_id = 1; home_id = 3; user_type = owner }
      ∷ record { user_id = 2; home_id = 3; user_type = guest }
      ∷ [];
  users = ann ∷ bob ∷ [];
}

abbrev food : HouseholdCategory
food = record { id = 10; home_id = 3; name = "Food" }

abbrev milk : Product
milk = record {
  id = 20;
  name = "Milk";
  barcode = some "111";
  brand = none;
  external_category = none;
  image_url = none;
  is_active = true;
}

abbrev carton : InventoryItem
carton = record {
  id = 30;
  home_id = 3;
  created_by = some 1;
  product_id = 20;
  household_category_id = 10;
  quantity = pos 2;
  unit = "pcs";
  expiry_date = some 90;
  notes = none;
  created_at = 5;
}

abbrev stock : Stock
stock = record { homes = homes; categories = food ∷ []; products = milk ∷ []; items = carton ∷ [] }

abbrev bottle : InventoryCreateRequest
bottle = record {
  product_id = 20;
  household_category_id = 10;
  quantity = pos 1;
  unit = "l";
  expiry_date = none;
  notes = none;
}

abbrev more : InventoryUpdateRequest
more = record {
  product_id = unset;
  household_category_id = unset;
  quantity = value (pos 3);
  unit = unset;
  expiry_date = unset;
  notes = unset;
}

abbrev scan : Scan
scan = record {
  id = 21;
  barcode = "222";
  name = "Rice";
  brand = none;
  external_category = none;
  image_url = none;
}

consistent : IsConsistent stock
consistent = record { keyed = (refl, tt); placed = ((refl, refl), tt) }

serve_all-IsConsistent_example : IsConsistent (
    serve_all
      (adds 3 ((31, bottle) ∷ []) ann 7 ∷ changes 3 30 more ann ∷ scans scan ∷ drops 3 10 ann ∷ [])
      stock)
serve_all-IsConsistent_example =
    serve_all-IsConsistent
      (adds 3 ((31, bottle) ∷ []) ann 7 ∷ changes 3 30 more ann ∷ scans scan ∷ drops 3 10 ann ∷ [])
      stock consistent

other_homes_untouched_example :
    IsLocal 3 stock (after stock (add_items 3 ((31, bottle) ∷ []) ann 7 stock))
    × IsLocal 3 stock (after stock (update_item 3 30 more ann stock))
    × IsLocal 3 stock (after stock (delete_item 3 30 ann stock))
other_homes_untouched_example =
    other_homes_untouched 3 ann stock ((31, bottle) ∷ []) 7 30 more (refl, tt)

added_found_example :
    All
      (λ (x : ℕ × InventoryCreateRequest).
        Table.get key x.0 (new_item 3 1 7 (31, bottle) ∷ carton ∷ [])
        ≡ some (record {
          id = x.0;
          home_id = 3;
          created_by = some 1;
          product_id = x.1.product_id;
          household_category_id = x.1.household_category_id;
          quantity = x.1.quantity;
          unit = x.1.unit;
          expiry_date = x.1.expiry_date;
          notes = x.1.notes;
          created_at = 7;
        }))
      ((31, bottle) ∷ [])
unfolding add_items required require user_is_owner is_allowed lock_for_inventory is_valid_product
    get_many insert_all
added_found_example =
    added_found 3 ((31, bottle) ∷ []) ann 7 stock
      (with_items (new_item 3 1 7 (31, bottle) ∷ carton ∷ []) stock) (refl, tt) refl

abbrev all_items : InventoryFilters
all_items = record { household_category_id = []; expiry = none; days = 7 }

scan_again_example :
    (t : Products) × (r : Product) × (created : Bool) × (find_or_create_by_barcode scan (milk ∷ [])
      ≡ ok (t, (r, created)))
    × (find_or_create_by_barcode scan t ≡ ok (t, (r, false)))
scan_again_example = scan_again scan scan (milk ∷ []) refl

abbrev by_id : HouseholdCategory → HouseholdCategory → Bool
by_id a b = leb a.id b.id

-- The settings page of the flat.
abbrev settings : SettingsPage
settings = record {
  home_id = 3;
  name = "Flat";
  members =
      record { user_id = 1; username = "ann"; email = "ann@b.c"; user_type = owner }
      ∷ record { user_id = 2; username = "bob"; email = "bob@b.c"; user_type = guest }
      ∷ [];
  categories = record { id = 10; name = food.name; item_count = 1 } ∷ [];
}

count_decides_example :
    delete_category 3 10 (is_used (carton ∷ [])) ann homes (food ∷ []) ≡ err in_use
unfolding get_settings managed_home required require list_members_with_users joined
count_decides_example =
    count_decides by_id 3 ann stock settings (record { id = 10; name = food.name; item_count = 1 })
      (refl, tt) refl (head refl)
