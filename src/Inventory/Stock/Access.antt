-- ===== src/Inventory/Stock/Access.antt =====
-- Who may change the items of a home, and what a change leaves: app/apis/inventory/services/service.py
-- and app/apis/household_categories/service.py.
use family_inventory.Prelude.{
  ℕ, ◌≡◌, ◌≢◌, refl, sym, ◌∙◌, ap, String, Bool, true, false, not, ◌||◌, some, List, [], ◌∷◌, ◌++◌,
  arith, ◌==◌, ==_iff, Bool-cases, Option-cases, inl, inr, select, All, All-imply, All-true,
}
use family_inventory.Prelude.Table
use family_inventory.Notifications.Result.{ok}
use family_inventory.Homes.Members.{User, user_is_owner, require, required, get_home, raise}
use family_inventory.Homes.Members.Guards.{
  after, after-require, after-required, after-bind, after-then,
}
use family_inventory.Households.{create_category}
use family_inventory.Inventory.Stock.{
  Stock, InventoryItem, Items, InventoryCreateRequest, InventoryUpdateRequest, key, new_item,
  add_items, get_item, updated, update_item, delete_item, check_category, check_product, is_null,
  with_update,
}
use family_inventory.Inventory.Stock.Consistent.{All-map}
use family_inventory.Inventory.Stock.Added.{insert_all-append}
use family_inventory.Inventory.Stock.Kept.{get_item-found}

module _ (h : ℕ) (current : User) (s : Stock) (plain : current.is_admin ≡ false)
    (outside : user_is_owner current.id h s.homes ≡ false) where
  add-denied :
      (items : List (ℕ × InventoryCreateRequest)) (now : ℕ) (s' : Stock)
      → add_items h items current now s ≢ ok s'
  unfolding add_items required require
  add-denied items now s' e = elim (Option-cases (get_home h s.homes)) [
    | inl b ↦ cc (e, b)
    | inr (home, b) ↦ cc (e, b, plain, outside)
  ]

  update-denied :
      (i : ℕ) (u : InventoryUpdateRequest) (s' : Stock) → update_item h i u current s ≢ ok s'
  unfolding update_item required require
  update-denied i u s' e = elim (Option-cases (get_item h i s.items)) [
    | inl b ↦ cc (e, b)
    | inr (item, b) ↦ cc (e, b, plain, outside)
  ]

  delete-denied : (i : ℕ) (s' : Stock) → delete_item h i current s ≢ ok s'
  unfolding delete_item required require
  delete-denied i s' e = elim (Option-cases (get_item h i s.items)) [
    | inl b ↦ cc (e, b)
    | inr (item, b) ↦ cc (e, b, plain, outside)
  ]

  -- A user who is no administrator and does not own a home cannot add an item to it, update or delete
  -- one of its items, or create a category in it: each of these calls raises.
  pub stock_denied :
      (items : List (ℕ × InventoryCreateRequest)) (now i : ℕ) (u : InventoryUpdateRequest)
      (name : String) (s' : Stock)
      → (add_items h items current now s ≢ ok s')
        × (update_item h i u current s ≢ ok s')
        × (delete_item h i current s ≢ ok s')
        × (create_category i h name current s.homes s.categories ≢ ok s'.categories)
  unfolding create_category require
  stock_denied items now i u name s' = (
    add-denied items now s',
    update-denied i u s',
    delete-denied i s',
    λ e. cc (e, plain, outside),
  )

-- the items of the other homes
abbrev pub others : ℕ → Items → Items
others h t = select (λ r. not (r.home_id == h)) t

others-append :
    (h : ℕ) (rs t : Items) → All (λ r. r.home_id ≡ h) rs → others h (rs ++ t) ≡ others h t
others-append h [] t g = refl
others-append h (r ∷ rs) t g = ground (arith, g.0, others-append h rs t g.1)

others-update :
    (h : ℕ) (p : InventoryItem → Bool) (f : InventoryItem → InventoryItem) (t : Items)
    → ((r : InventoryItem) → (f r).home_id ≡ r.home_id)
    → All (λ r. p r ≡ true → r.home_id ≡ h) t
    → others h (Table.update p f t) ≡ others h t
others-update h p f [] k g = refl
others-update h p f (r ∷ t) k g = elim (Bool-cases (p r)) [
  | inl e ↦ ground (arith, e, k r, g.0 e, others-update h p f t k g.1)
  | inr e ↦ ground (arith, e, others-update h p f t k g.1)
]

others-select :
    (h : ℕ) (p : InventoryItem → Bool) (t : Items)
    → All (λ r. p r ≡ true → r.home_id ≡ h) t
    → others h (select (λ r. not (p r)) t) ≡ others h t
others-select h p [] g = refl
others-select h p (r ∷ t) g = elim (Bool-cases (p r)) [
  | inl e ↦ ground (arith, e, g.0 e, others-select h p t g.1)
  | inr e ↦ ground (arith, e, others-select h p t g.1)
]

-- the rows with the id of an item of the home are in the home
ids-home :
    (h i : ℕ) (t : Items) (item : InventoryItem)
    → Table.IsKeyed key t
    → get_item h i t ≡ some item
    → All (λ r. (r.id == i) ≡ true → r.home_id ≡ h) t
ids-home h i t item k e =
    let (here, home) = get_item-found h i t item e in
    All-imply _ _ t
      (λ r g m.
        let same : r ≡ item = cc (here, g, (==_iff r.id i).0 m) in
        ap (λ (x : InventoryItem). x.home_id) same ∙ home)
      (Table.All-get key t k)

-- The items of the homes other than one are the same.
pub record IsLocal (h : ℕ) (s s' : Stock) : Type 0 where
  pub same : others h s'.items ≡ others h s.items

module _ (h : ℕ) (current : User) (s : Stock) where
  nothing : IsLocal h s s
  nothing = record { same = refl }

  add-IsLocal :
      (items : List (ℕ × InventoryCreateRequest)) (now : ℕ)
      → IsLocal h s (after s (add_items h items current now s))
  unfolding add_items
  add-IsLocal items now = after-required (IsLocal h s) s nothing _ _ _ (λ home e.
      after-require (IsLocal h s) s nothing _ _ _ (λ a.
        after-require (IsLocal h s) s nothing _ _ _ (λ b.
          after-require (IsLocal h s) s nothing _ _ _ (λ d.
            after-bind (IsLocal h s) s nothing _ _ (λ rows m. record {
              same =
                  ap (others h) (sym (insert_all-append _ s.items rows m))
                  ∙ others-append h _ s.items
                      (All-map _ (new_item h current.id now) items (All-true items (λ x. refl)));
            })))))

  update-IsLocal :
      (i : ℕ) (u : InventoryUpdateRequest)
      → Table.IsKeyed key s.items
      → IsLocal h s (after s (update_item h i u current s))
  unfolding update_item
  update-IsLocal i u keyed = after-required (IsLocal h s) s nothing _ _ _ (λ item e.
      after-require (IsLocal h s) s nothing _ _ _ (λ a.
        after-then (IsLocal h s) s nothing (check_category h u.household_category_id s.categories) _
          (λ b. after-then (IsLocal h s) s nothing (check_product u.product_id s.products) _ (λ d.
            after-require (IsLocal h s) s nothing (raise "IntegrityError" "")
              (not (is_null u.quantity || is_null u.unit)) (ok (with_update i u s))
              (λ n. record {
                same =
                    others-update h (λ r. r.id == i) (updated u) s.items (λ r. refl)
                      (ids-home h i s.items item keyed e);
              })))))

  delete-IsLocal :
      (i : ℕ) → Table.IsKeyed key s.items → IsLocal h s (after s (delete_item h i current s))
  unfolding delete_item
  delete-IsLocal i keyed = after-required (IsLocal h s) s nothing _ _ _ (λ item e.
      after-require (IsLocal h s) s nothing _ _ _ (λ a. record {
        same = others-select h (λ r. r.id == i) s.items (ids-home h i s.items item keyed e);
      }))

  -- Adding items to a home, and updating or deleting an item by the route of a home, leave the items
  -- of every other home as they are, if the ids of the items are different.
  pub other_homes_untouched :
      (items : List (ℕ × InventoryCreateRequest)) (now i : ℕ) (u : InventoryUpdateRequest)
      → Table.IsKeyed key s.items
      → IsLocal h s (after s (add_items h items current now s))
        × IsLocal h s (after s (update_item h i u current s))
        × IsLocal h s (after s (delete_item h i current s))
  other_homes_untouched items now i u keyed =
      (add-IsLocal items now, update-IsLocal i u keyed, delete-IsLocal i keyed)
