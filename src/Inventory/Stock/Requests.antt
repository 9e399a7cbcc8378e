-- ===== src/Inventory/Stock/Requests.antt =====
-- The requests that change the items, categories and products, one after another: the routes of
-- app/apis/inventory/router.py, app/apis/homes/settings.py and app/apis/product/router.py. A request
-- that raises is rolled back.
use family_inventory.Prelude.{
  ℕ, ◌≡◌, String, Bool, false, not, ◌&&◌, ◌||◌, List, [], ◌∷◌, ◌==◌, Bool-cases, inl, inr, exists,
  select,
}
use family_inventory.Prelude.Table
use family_inventory.Notifications.Result.{ok, ◌>>=◌, Result-cases}
use family_inventory.Homes.Members.{User, Homes, require, user_is_owner}
use family_inventory.Homes.Members.Guards.{after}
use family_inventory.Homes.Settings.{managed_home}
use family_inventory.Households.{
  Categories, HouseholdCategory, create_category, rename_category, delete_category, home_category,
  user_has_access, is_named,
}
use family_inventory.Households
use family_inventory.Products.{Products, Product, Scan, find_or_create_by_barcode, deactivate}
use family_inventory.Inventory.Stock.{
  Stock, InventoryItem, Items, InventoryCreateRequest, InventoryUpdateRequest, add_items,
  update_item, delete_item,
}

pub data Request : Type 0 where
  adds : (h : ℕ) → List (ℕ × InventoryCreateRequest) → User → (now : ℕ) → Request
  changes : (h item_id : ℕ) → InventoryUpdateRequest → User → Request
  removes : (h item_id : ℕ) → User → Request
  names : (new_id h : ℕ) → String → User → Request
  renames : (h category_id : ℕ) → String → User → Request
  drops : (h category_id : ℕ) → User → Request
  scans : Scan → Request
  retires : Product → Request

abbrev pub with_categories : Categories → Stock → Stock
with_categories t s = record s { categories = t }

abbrev pub with_products : Products → Stock → Stock
with_products t s = record s { products = t }

-- whether an item references a category
abbrev pub is_used : Items → ℕ → Bool
is_used t k = exists (λ (r : InventoryItem). r.household_category_id == k) t

unfoldable pub serve : Request → Stock → Stock
serve (adds h items user now) s = after s (add_items h items user now s)
serve (changes h i u user) s = after s (update_item h i u user s)
serve (removes h i user) s = after s (delete_item h i user s)
serve (names i h name user) s =
    after s (create_category i h name user s.homes s.categories >>= λ t. ok (with_categories t s))
serve (renames h k name user) s =
    after s (rename_category h k name user s.homes s.categories >>= λ t. ok (with_categories t s))
serve (drops h k user) s = after s (
    delete_category h k (is_used s.items) user s.homes s.categories >>= λ t.
    ok (with_categories t s))
serve (scans v) s =
    after s (find_or_create_by_barcode v s.products >>= λ r. ok (with_products r.0 s))
serve (retires product) s = with_products (deactivate product s.products) s

unfoldable pub serve_all : List Request → Stock → Stock
unfolding serve
serve_all [] s = s
serve_all (r ∷ rs) s = serve_all rs (serve r s)

pub created-cons :
    (i h : ℕ) (name : String) (user : User) (homes : Homes) (t t' : Categories)
    → create_category i h name user homes t ≡ ok t'
    → (c : HouseholdCategory) × (c ∷ t ≡ t')
unfolding create_category Households.create require
created-cons i h name user homes t t' e =
    let may = user_is_owner user.id h homes || (user.is_admin && user_has_access user.id h homes) in
    elim (Bool-cases may) [
      | inr a ↦ cc (e, a)
      | inl a ↦ elim (Bool-cases (exists (is_named h name) t)) [
        | inl b ↦ cc (e, a, b)
        | inr b ↦ (record { id = i; home_id = h; name = name }, cc (e, a, b))
      ]
    ]

pub dropped-select :
    (h k : ℕ) (used : ℕ → Bool) (user : User) (homes : Homes) (t t' : Categories)
    → delete_category h k used user homes t ≡ ok t'
    → (j : ℕ) × (used j ≡ false) × (select (λ (r : HouseholdCategory). not (r.id == j)) t ≡ t')
unfolding delete_category require
dropped-select h k used user homes t t' e = elim (Result-cases (managed_home h user homes)) [
  | inr (x, a) ↦ cc (e, a)
  | inl (home, a) ↦ elim (Result-cases (home_category h k t)) [
    | inr (x, b) ↦ cc (e, a, b)
    | inl (c, b) ↦ elim (Bool-cases (used c.id)) [
      | inl d ↦ cc (e, a, b, d)
      | inr d ↦ (c.id, d, cc (e, a, b, d))
    ]
  ]
]

pub renamed-update :
    (h k : ℕ) (name : String) (user : User) (homes : Homes) (t t' : Categories)
    → rename_category h k name user homes t ≡ ok t'
    → (j : ℕ) × (Table.update
          (λ (r : HouseholdCategory). r.id == j)
          (λ r. record r { name = name })
          t
        ≡ t')
unfolding rename_category require
renamed-update h k name user homes t t' e = elim (Result-cases (managed_home h user homes)) [
  | inr (x, a) ↦ cc (e, a)
  | inl (home, a) ↦ elim (Result-cases (home_category h k t)) [
    | inr (x, b) ↦ cc (e, a, b)
    | inl (c, b) ↦ elim (Bool-cases (exists (λ r. not (r.id == c.id) && is_named h name r) t)) [
      | inl d ↦ cc (e, a, b, d)
      | inr d ↦ (c.id, cc (e, a, b, d))
    ]
  ]
]
