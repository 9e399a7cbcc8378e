-- ===== src/Inventory/Stock/Stays.antt =====
-- The items stay consistent through any requests of app/apis/inventory, app/apis/homes/settings.py and
-- app/apis/product.
use mathlib.Core.Path.{subst}
use family_inventory.Prelude.{
  ℕ, ◌≡◌, refl, ◌∙◌, String, true, false, not, List, [], ◌∷◌, arith, ◌==◌, inl, inr, select, All,
  All-true, All-imply, All-both,
}
use family_inventory.Homes.Members.{User}
use family_inventory.Homes.Members.Guards.{after-bind}
use family_inventory.Households.{Categories, HouseholdCategory}
use family_inventory.Products.{Products, Product, Scan, deactivate, scanned}
use family_inventory.Products.Barcodes.{scan-rows}
use family_inventory.Inventory.Stock.{Stock, InventoryItem}
use family_inventory.Inventory.Stock.Consistent.{
  IsConsistent, belongs, is_stocked, All-none_is, exists-update_same, exists-cons,
}
use family_inventory.Inventory.Stock.Kept.{
  add-IsConsistent, update-IsConsistent, delete-IsConsistent,
}
use family_inventory.Inventory.Stock.Requests.{
  Request, adds, changes, removes, names, renames, drops, scans, retires, with_categories,
  with_products, is_used, serve, serve_all, created-cons, dropped-select, renamed-update,
}

-- A change of the categories that leaves a category to every item.
categories-IsConsistent :
    (t' : Categories) (s : Stock)
    → IsConsistent s
    → All
        (λ (r : InventoryItem).
          belongs s.categories r.home_id r.household_category_id ≡ true
          → belongs t' r.home_id r.household_category_id ≡ true)
        s.items
    → IsConsistent (with_categories t' s)
categories-IsConsistent t' s good keep = record {
  keyed = good.keyed;
  placed =
      All-imply _ _ s.items (λ r q. (q.0 q.1.0, q.1.1)) (All-both _ _ s.items keep good.placed);
}

belongs-select :
    (t : Categories) (h k j : ℕ)
    → (k == j) ≡ false
    → belongs t h k ≡ true
    → belongs (select (λ (r : HouseholdCategory). not (r.id == j)) t) h k ≡ true
belongs-select [] h k j n e = e
belongs-select (c ∷ t) h k j n e = ground (arith, belongs-select t h k j n, e, n)

name-IsConsistent :
    (i h : ℕ) (name : String) (user : User) (s : Stock)
    → IsConsistent s
    → IsConsistent (serve (names i h name user) s)
unfolding serve
name-IsConsistent i h name user s good = after-bind IsConsistent s good _ _ (λ t' m.
    let (c, same) = created-cons i h name user s.homes s.categories t' m in
    categories-IsConsistent t' s good (
      All-true s.items (λ r b.
        subst (λ t. belongs t r.home_id r.household_category_id ≡ true) same
          (exists-cons _ c s.categories b))))

rename-IsConsistent :
    (h k : ℕ) (name : String) (user : User) (s : Stock)
    → IsConsistent s
    → IsConsistent (serve (renames h k name user) s)
unfolding serve
rename-IsConsistent h k name user s good = after-bind IsConsistent s good _ _ (λ t' m.
    let (j, same) = renamed-update h k name user s.homes s.categories t' m in
    categories-IsConsistent t' s good (
      All-true s.items (λ r b.
        subst (λ t. belongs t r.home_id r.household_category_id ≡ true) same
          (exists-update_same _ _ _ s.categories (λ c. refl) ∙ b))))

drop-IsConsistent :
    (h k : ℕ) (user : User) (s : Stock) → IsConsistent s → IsConsistent (serve (drops h k user) s)
unfolding serve
drop-IsConsistent h k user s good = after-bind IsConsistent s good _ _ (λ t' m.
    let (j, free, same) = dropped-select h k (is_used s.items) user s.homes s.categories t' m in
    categories-IsConsistent t' s good (
      All-imply _ _ s.items
        (λ r n b.
          subst (λ t. belongs t r.home_id r.household_category_id ≡ true) same
            (belongs-select s.categories r.home_id r.household_category_id j n b))
        (All-none_is _ s.items free)))

products-IsConsistent :
    (t' : Products) (s : Stock)
    → IsConsistent s
    → ((k : ℕ) → is_stocked s.products k ≡ true → is_stocked t' k ≡ true)
    → IsConsistent (with_products t' s)
products-IsConsistent t' s good keep = record {
  keyed = good.keyed;
  placed = All-imply _ _ s.items (λ r q. (q.0, keep r.product_id q.1)) good.placed;
}

scan-IsConsistent : (v : Scan) (s : Stock) → IsConsistent s → IsConsistent (serve (scans v) s)
unfolding serve
scan-IsConsistent v s good = after-bind IsConsistent s good _ _ (λ x m.
    products-IsConsistent x.0 s good (λ k b. elim (scan-rows v s.products x m) [
      | inl same ↦ subst (λ t. is_stocked t k ≡ true) same b
      | inr same ↦ subst (λ t. is_stocked t k ≡ true) same (exists-cons _ (scanned v) s.products b)
    ]))

retire-IsConsistent :
    (product : Product) (s : Stock) → IsConsistent s → IsConsistent (serve (retires product) s)
unfolding serve deactivate
retire-IsConsistent product s good =
    products-IsConsistent (deactivate product s.products) s good (λ k b.
      exists-update_same (λ (r : Product). r.id == k) (λ r. r.id == product.id)
        (λ (r : Product). record r { is_active = false }) s.products (λ r. refl)
      ∙ b)

serve-IsConsistent : (r : Request) (s : Stock) → IsConsistent s → IsConsistent (serve r s)
unfolding serve
serve-IsConsistent (adds h items user now) s good = add-IsConsistent h items user now s good
serve-IsConsistent (changes h i u user) s good = update-IsConsistent h i u user s good
serve-IsConsistent (removes h i user) s good = delete-IsConsistent h i user s good
serve-IsConsistent (names i h name user) s good = name-IsConsistent i h name user s good
serve-IsConsistent (renames h k name user) s good = rename-IsConsistent h k name user s good
serve-IsConsistent (drops h k user) s good = drop-IsConsistent h k user s good
serve-IsConsistent (scans v) s good = scan-IsConsistent v s good
serve-IsConsistent (retires product) s good = retire-IsConsistent product s good

-- If the ids of the items are different and every item has a category of its home and a product,
-- then it is so after any sequence of requests that add, update and delete items, create, rename and
-- delete categories, and scan and deactivate products, whoever makes them.
pub serve_all-IsConsistent :
    (rs : List Request) (s : Stock) → IsConsistent s → IsConsistent (serve_all rs s)
unfolding serve_all
serve_all-IsConsistent [] s good = good
serve_all-IsConsistent (r ∷ rs) s good =
    serve_all-IsConsistent rs (serve r s) (serve-IsConsistent r s good)
