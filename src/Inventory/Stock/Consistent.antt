-- ===== src/Inventory/Stock/Consistent.antt =====
-- Every item has a category of its home and a product: app/apis/inventory/services/service.py with
-- the services of categories and products.
use family_inventory.Prelude.{
  ℕ, ◌≡◌, refl, sym, ◌∙◌, Bool, true, false, not, ◌&&◌, List, [], ◌∷◌, map, arith, ◌==◌, leb,
  Bool-cases, inl, inr, exists, select, exists-sort_by, All,
}
use family_inventory.Prelude.Table
use mathlib.Core.Path.{subst}
use family_inventory.Notifications.Result.{ok, Result-cases}
use family_inventory.Homes.Members.{require}
use family_inventory.Households
use family_inventory.Households.{Categories, HouseholdCategory, lock_for_inventory}
use family_inventory.Products.{Products, Product, get_many}
use family_inventory.Inventory.Stock.{
  Stock, InventoryItem, Items, key, is_allowed, is_valid_product, insert_all,
}

-- the category is one of the home
abbrev pub belongs : Categories → ℕ → ℕ → Bool
belongs t h k = exists (λ (c : HouseholdCategory). c.id == k && c.home_id == h) t

-- the product exists, active or not
abbrev pub is_stocked : Products → ℕ → Bool
is_stocked t k = exists (λ (r : Product). r.id == k) t

abbrev pub IsPlaced : Categories → Products → InventoryItem → Type 0
IsPlaced c p r =
    (belongs c r.home_id r.household_category_id ≡ true) × (is_stocked p r.product_id ≡ true)

-- The ids of items are different, and each item has a category of its home and a product.
pub record IsConsistent (s : Stock) : Type 0 where
  pub keyed : Table.IsKeyed key s.items
  pub placed : All (IsPlaced s.categories s.products) s.items

module _ {A : Type 0} where
  pub exists-select-imply :
      (p q w : A → Bool) (t : List A)
      → ((x : A) → w x ≡ true → p x ≡ true → q x ≡ true)
      → exists p (select w t) ≡ true
      → exists q t ≡ true
  exists-select-imply p q w [] f h = h
  exists-select-imply p q w (x ∷ t) f h = ground (arith, exists-select-imply p q w t f, f x, h)

  pub exists-update_same :
      (p w : A → Bool) (f : A → A) (t : List A)
      → ((x : A) → p (f x) ≡ p x)
      → exists p (Table.update w f t) ≡ exists p t
  exists-update_same p w f [] k = refl
  exists-update_same p w f (x ∷ t) k = ground (arith, k x, exists-update_same p w f t k)

  pub exists-cons :
      (p : A → Bool) (x : A) (t : List A) → exists p t ≡ true → exists p (x ∷ t) ≡ true
  exists-cons p x t h = ground (arith, h)

pub allowed-belongs :
    (h : ℕ) (ids : List ℕ) (t : Categories) (k : ℕ)
    → is_allowed h ids t k ≡ true
    → belongs t h k ≡ true
unfolding is_allowed lock_for_inventory
allowed-belongs h ids t k e =
    let p : HouseholdCategory → Bool = λ c. c.id == k in
    let w : HouseholdCategory → Bool = λ c. c.home_id == h && Households.contains_id c.id ids in
    exists-select-imply p (λ c. c.id == k && c.home_id == h) w t (λ x a b. ground (arith, a, b))
      (sym (exists-sort_by p (λ (a b : HouseholdCategory). leb a.id b.id) (select w t)) ∙ e)

pub valid-stocked :
    (ids : List ℕ) (t : Products) (k : ℕ) → is_valid_product ids t k ≡ true → is_stocked t k ≡ true
unfolding is_valid_product get_many
valid-stocked ids t k e =
    exists-select-imply (λ (r : Product). r.id == k) (λ (r : Product). r.id == k) _ t (λ x a b. b) e

module _ {A : Type 0} where
  -- no row fails a test, so all pass
  pub All-of_none :
      (p : A → Bool) (l : List A) → exists (λ x. not (p x)) l ≡ false → All (λ x. p x ≡ true) l
  All-of_none p [] h = tt
  All-of_none p (x ∷ l) h = elim (Bool-cases (p x)) [
    | inl e ↦ (e, All-of_none p l (ground (arith, e, h)))
    | inr e ↦ absurd (ground (arith, e, h))
  ]

  pub All-map :
      {B : Type 0} (Q : B → Type 0) (f : A → B) (l : List A)
      → All (λ x. Q (f x)) l
      → All Q (map f l)
  All-map Q f [] h = tt
  All-map Q f (x ∷ l) h = (h.0, All-map Q f l h.1)

  pub All-none_is : (p : A → Bool) (l : List A) → exists p l ≡ false → All (λ x. p x ≡ false) l
  All-none_is p [] h = tt
  All-none_is p (x ∷ l) h = elim (Bool-cases (p x)) [
    | inl e ↦ absurd (ground (arith, e, h))
    | inr e ↦ (e, All-none_is p l (ground (arith, e, h)))
  ]

-- what one more row does
insert_head :
    (r : InventoryItem) (rs t t' u : Items)
    → insert_all (r ∷ rs) t ≡ ok t'
    → insert_all rs t ≡ ok u
    → Table.has key r.id u ≡ true
    → ⊥
unfolding insert_all require
insert_head r rs t t' u e m d = cc (e, m, d)

insert_next :
    (r : InventoryItem) (rs t t' u : Items)
    → insert_all (r ∷ rs) t ≡ ok t'
    → insert_all rs t ≡ ok u
    → Table.has key r.id u ≡ false
    → r ∷ u ≡ t'
unfolding insert_all require
insert_next r rs t t' u e m d = cc (e, m, d)

pub insert_all-kept :
    (Q : InventoryItem → Type 0) (rs t t' : Items)
    → insert_all rs t ≡ ok t'
    → Table.IsKeyed key t × All Q t
    → All Q rs
    → Table.IsKeyed key t' × All Q t'
unfolding insert_all
insert_all-kept Q [] t t' e h g =
    let same : t ≡ t' = cc e in subst (λ x. Table.IsKeyed key x × All Q x) same h
insert_all-kept Q (r ∷ rs) t t' e h g = elim (Result-cases (insert_all rs t)) [
  | inr (x, m) ↦ cc (e, m)
  | inl (u, m) ↦
      let (k, a) = insert_all-kept Q rs t u m h g.1 in
      elim (Bool-cases (Table.has key r.id u)) [
        | inl d ↦ absurd (insert_head r rs t t' u e m d)
        | inr d ↦
            subst (λ x. Table.IsKeyed key x × All Q x) (insert_next r rs t t' u e m d)
              ((d, k), (g.0, a))
      ]
]
