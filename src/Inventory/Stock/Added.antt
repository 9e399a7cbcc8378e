-- ===== src/Inventory/Stock/Added.antt =====
-- What add_items of app/apis/inventory/services/service.py stores.
use mathlib.Core.Path.{subst}
use family_inventory.Prelude.{
  ℕ, ◌≡◌, sym, ◌∙◌, ap, ◌||◌, some, List, [], ◌∷◌, ◌++◌, map, Bool-cases, Option-cases, inl, inr,
  All, All-true,
}
use family_inventory.Prelude.Table
use family_inventory.Notifications.Result.{ok, Result-cases}
use family_inventory.Homes.Members.{User, user_is_owner, require, required, get_home}
use family_inventory.Inventory.Stock.{
  Stock, InventoryItem, Items, InventoryCreateRequest, key, new_item, insert_all, add_items,
  with_items, has_bad_category, has_bad_product,
}
use family_inventory.Inventory.Stock.Consistent.{insert_all-kept}

pub insert_all-append : (rs t t' : Items) → insert_all rs t ≡ ok t' → rs ++ t ≡ t'
unfolding insert_all require
insert_all-append [] t t' e = cc e
insert_all-append (r ∷ rs) t t' e = elim (Result-cases (insert_all rs t)) [
  | inr (x, m) ↦ cc (e, m)
  | inl (u, m) ↦ elim (Bool-cases (Table.has key r.id u)) [
    | inl d ↦ cc (e, m, d)
    | inr d ↦
        let same : r ∷ u ≡ t' = cc (e, m, d) in ap (λ l. r ∷ l) (insert_all-append rs t u m) ∙ same
  ]
]

All-first : (Q : InventoryItem → Type 0) (rs t : Items) → All Q (rs ++ t) → All Q rs
All-first Q [] t h = tt
All-first Q (r ∷ rs) t h = (h.0, All-first Q rs t h.1)

All-unmap :
    {B : Type 0} (Q : InventoryItem → Type 0) (f : B → InventoryItem) (l : List B)
    → All Q (map f l)
    → All (λ x. Q (f x)) l
All-unmap Q f [] h = tt
All-unmap Q f (x ∷ l) h = (h.0, All-unmap Q f l h.1)

added-rows :
    (h : ℕ) (items : List (ℕ × InventoryCreateRequest)) (current : User) (now : ℕ) (s s' : Stock)
    → add_items h items current now s ≡ ok s'
    → insert_all (map (new_item h current.id now) items) s.items ≡ ok s'.items
unfolding add_items required require
added-rows h items current now s s' e = elim (Option-cases (get_home h s.homes)) [
  | inl a ↦ cc (e, a)
  | inr (home, a) ↦ elim (Bool-cases (current.is_admin || user_is_owner current.id h s.homes)) [
    | inr b ↦ cc (e, a, b)
    | inl b ↦ elim (Bool-cases (has_bad_category h items s)) [
      | inl d ↦ cc (e, a, b, d)
      | inr d ↦ elim (Bool-cases (has_bad_product items s)) [
        | inl g ↦ cc (e, a, b, d, g)
        | inr g ↦ elim (Result-cases (insert_all (map (new_item h current.id now) items) s.items)) [
          | inr (x, m) ↦ cc (e, a, b, d, g, m)
          | inl (rows, m) ↦
              let same : with_items rows s ≡ s' = cc (e, a, b, d, g, m) in
              m ∙ ap (λ (x : Stock). ok x.items) same
        ]
      ]
    ]
  ]
]

-- What was added can be looked up: when `add_items` succeeds, each request's row is found under the
-- id it drew, in the home, with the requested product, category, quantity, unit, expiry date and
-- notes, the user who made the request and its time, if the ids of the items were different before.
pub added_found :
    (h : ℕ) (items : List (ℕ × InventoryCreateRequest)) (current : User) (now : ℕ) (s s' : Stock)
    → Table.IsKeyed key s.items
    → add_items h items current now s ≡ ok s'
    → All
        (λ x.
          Table.get key x.0 s'.items
          ≡ some (record {
            id = x.0;
            home_id = h;
            created_by = some current.id;
            product_id = x.1.product_id;
            household_category_id = x.1.household_category_id;
            quantity = x.1.quantity;
            unit = x.1.unit;
            expiry_date = x.1.expiry_date;
            notes = x.1.notes;
            created_at = now;
          }))
        items
added_found h items current now s s' keyed e =
    let rows = map (new_item h current.id now) items in
    let m = added-rows h items current now s s' e in
    let (k, q) =
      insert_all-kept (λ r. Unit) rows s.items s'.items m (keyed, All-true s.items (λ r. tt))
        (All-true rows (λ r. tt)) in
    All-unmap _ (new_item h current.id now) items (
      All-first (λ r. Table.get key r.id s'.items ≡ some r) rows s.items
        (subst (All (λ r. Table.get key r.id s'.items ≡ some r))
          (sym (insert_all-append rows s.items s'.items m)) (Table.All-get key s'.items k)))
