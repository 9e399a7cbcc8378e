-- ===== src/Inventory/Stock/Kept.antt =====
-- Each operation of app/apis/inventory/services/service.py keeps the items consistent, and so do the
-- operations on categories and products that they depend on.
use family_inventory.Prelude.{
  ℕ, ◌≡◌, refl, sym, ◌∙◌, ap, true, false, some, List, [], ◌∷◌, map, arith, ◌==◌, ==_iff,
  Bool-cases, Option-cases, inl, inr, All, All-select, All-imply, All-both,
}
use family_inventory.Prelude.Table
use family_inventory.Notifications.Result.{ok}
use family_inventory.Homes.Members.{User, require}
use family_inventory.Homes.Members.Guards.{
  after, after-require, after-required, after-bind, after-then,
}
use family_inventory.Households.{Categories}
use family_inventory.Products
use family_inventory.Products.{Products, Product}
use family_inventory.Inventory.Stock.{
  Stock, InventoryItem, Items, InventoryCreateRequest, InventoryUpdateRequest, Field, key, new_item,
  is_allowed, has_bad_category, has_bad_product, category_ids, product_ids, add_items, get_item,
  check_category, check_product, updated, update_item, delete_item, with_update, unset, null, value,
  assign,
}
use family_inventory.Inventory.Stock.Consistent.{
  IsConsistent, IsPlaced, belongs, is_stocked, allowed-belongs, valid-stocked, All-of_none, All-map,
  insert_all-kept,
}

requested-IsPlaced :
    (h by now : ℕ) (items : List (ℕ × InventoryCreateRequest)) (s : Stock)
    → has_bad_category h items s ≡ false
    → has_bad_product items s ≡ false
    → All (IsPlaced s.categories s.products) (map (new_item h by now) items)
requested-IsPlaced h by now items s a b =
    All-map (IsPlaced s.categories s.products) (new_item h by now) items (
      All-imply _ _ items
        (λ r e. (
          allowed-belongs h (category_ids items) s.categories r.1.household_category_id e.0,
          valid-stocked (product_ids items) s.products r.1.product_id e.1,
        ))
        (All-both _ _ items (All-of_none _ items a) (All-of_none _ items b)))

pub add-IsConsistent :
    (h : ℕ) (items : List (ℕ × InventoryCreateRequest)) (current : User) (now : ℕ) (s : Stock)
    → IsConsistent s
    → IsConsistent (after s (add_items h items current now s))
unfolding add_items
add-IsConsistent h items current now s good = after-required IsConsistent s good _ _ _ (λ home e.
    after-require IsConsistent s good _ _ _ (λ a. after-require IsConsistent s good _ _ _ (λ b.
      after-require IsConsistent s good _ _ _ (λ d. after-bind IsConsistent s good _ _ (λ rows m.
        let (k, q) =
          insert_all-kept (IsPlaced s.categories s.products) _ s.items rows m
            (good.keyed, good.placed)
            (requested-IsPlaced h current.id now items s (ground (arith, b)) (ground (arith, d))) in
        record { keyed = k; placed = q })))))

pub delete-IsConsistent :
    (h item_id : ℕ) (current : User) (s : Stock)
    → IsConsistent s
    → IsConsistent (after s (delete_item h item_id current s))
unfolding delete_item
delete-IsConsistent h item_id current s good = after-required IsConsistent s good _ _ _ (λ item e.
    after-require IsConsistent s good _ _ _ (λ a. record {
      keyed = Table.select-IsKeyed key _ s.items good.keyed;
      placed = All-select (IsPlaced s.categories s.products) _ s.items good.placed;
    }))

pub get_item-found :
    (h i : ℕ) (t : Items) (r : InventoryItem)
    → get_item h i t ≡ some r
    → (Table.get key i t ≡ some r) × (r.home_id ≡ h)
get_item-found h i t r e = elim (Option-cases (Table.get key i t)) [
  | inl n ↦ cc (e, n)
  | inr (x, n) ↦ elim (Bool-cases (x.home_id == h)) [
    | inl m ↦
        let same : x ≡ r = cc (e, n, m) in
        (
          n ∙ ap some same,
          ap (λ (y : InventoryItem). y.home_id) (sym same) ∙ (==_iff x.home_id h).0 m,
        )
    | inr m ↦ cc (e, n, m)
  ]
]

checked-belongs :
    (h old : ℕ) (f : Field ℕ) (t : Categories)
    → check_category h f t ≡ ok tt
    → belongs t h old ≡ true
    → belongs t h (assign f old) ≡ true
unfolding check_category require
checked-belongs h old unset t e b = b
checked-belongs h old null t e b = b
checked-belongs h old (value k) t e b = elim (Bool-cases (is_allowed h (k ∷ []) t k)) [
  | inl a ↦ allowed-belongs h (k ∷ []) t k a
  | inr a ↦ cc (e, a)
]

get_by_id-stocked :
    (k : ℕ) (t : Products) (r : Product)
    → Products.get_by_id k false t ≡ some r
    → is_stocked t k ≡ true
unfolding Products.get_by_id
get_by_id-stocked k t r e = elim (Option-cases (Table.get Products.key k t)) [
  | inl n ↦ cc (e, n)
  | inr (x, n) ↦ Table.has-of-get Products.key k t x n
]

checked-stocked :
    (old : ℕ) (f : Field ℕ) (t : Products)
    → check_product f t ≡ ok tt
    → is_stocked t old ≡ true
    → is_stocked t (assign f old) ≡ true
unfolding check_product require
checked-stocked old unset t e b = b
checked-stocked old null t e b = b
checked-stocked old (value k) t e b = elim (Option-cases (Products.get_by_id k false t)) [
  | inl a ↦ cc (e, a)
  | inr (r, a) ↦ get_by_id-stocked k t r a
]

-- A checked update of an item of the home.
with_update-IsConsistent :
    (h item_id : ℕ) (u : InventoryUpdateRequest) (s : Stock) (r0 : InventoryItem)
    → IsConsistent s
    → get_item h item_id s.items ≡ some r0
    → check_category h u.household_category_id s.categories ≡ ok tt
    → check_product u.product_id s.products ≡ ok tt
    → IsConsistent (with_update item_id u s)
with_update-IsConsistent h item_id u s r0 good e a b =
    let (here, home) = get_item-found h item_id s.items r0 e in
    record {
      keyed = Table.update-IsKeyed key _ (updated u) s.items (λ r. refl) good.keyed;
      placed =
          Table.All-update_imply
            (λ r. (Table.get key r.id s.items ≡ some r) × IsPlaced s.categories s.products r)
            (IsPlaced s.categories s.products) (λ r. r.id == item_id) (updated u) s.items
            (λ r m q.
              let same : r ≡ r0 = cc (here, q.0, (==_iff r.id item_id).0 m) in
              let at_home : r.home_id ≡ h = ap (λ (x : InventoryItem). x.home_id) same ∙ home in
              let old =
                ap (λ k. belongs s.categories k r.household_category_id) (sym at_home) ∙ q.1.0 in
              (
                ap
                      (λ k.
                        belongs s.categories k
                          (assign u.household_category_id r.household_category_id))
                      at_home
                    ∙ checked-belongs h r.household_category_id u.household_category_id s.categories
                        a old,
                checked-stocked r.product_id u.product_id s.products b q.1.1,
              ))
            (λ r q. q.1) (All-both _ _ s.items (Table.All-get key s.items good.keyed) good.placed);
    }

pub update-IsConsistent :
    (h item_id : ℕ) (u : InventoryUpdateRequest) (current : User) (s : Stock)
    → IsConsistent s
    → IsConsistent (after s (update_item h item_id u current s))
unfolding update_item
update-IsConsistent h item_id u current s good = after-required IsConsistent s good _ _ _ (λ r0 e.
    after-require IsConsistent s good _ _ _ (λ a. after-then IsConsistent s good _ _ (λ b.
      after-then IsConsistent s good _ _ (λ d.
        after-require IsConsistent s good _ _ _
          (λ n. with_update-IsConsistent h item_id u s r0 good e b d)))))
