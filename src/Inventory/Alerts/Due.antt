-- ===== src/Inventory/Alerts/Due.antt =====
-- The items whose alerts are registered: the query of `register_expiry_alerts` in
-- app/apis/inventory/repository.py.
use mathlib.Core.List.{Memᴰ}
use mathlib.Core.List.Memᴰ
use mathlib.Core.List.Memᴰ.{head, tail}
use family_inventory.Prelude.{
  ℕ, zero, suc, ◌+◌, ◌≤◌, ◌<◌, ◌≡◌, ◌⊎◌, ◌↔◌, ◌&&◌, Option, Option-cases, ==_iff, refl, sym, ap,
  true, List, [], ◌∷◌, arith, inl, inr, some, none, take, length, select, sort_by, take_all,
  length-sort_by,
}
use family_inventory.Prelude.Membership.{mem-select, select-mem, mem-sort_by, sort_by-mem}
use family_inventory.Inventory.Alerts.{
  InventoryItem, InventoryAlertType, Registration, expired, expiring_soon, candidate_ids,
  is_candidate, expires, in_home, is_earlier, item_key,
}

-- What the query asks of an expiry date: before today, or from today on within the days.
abbrev pub IsExpiring : Registration → ℕ → Type 0
IsExpiring r d =
    ((r.alert_type ≡ expired) × (d < r.today))
    ⊎ ((r.alert_type ≡ expiring_soon) × (r.today ≤ d) × (d ≤ r.today + r.days))

-- What the query asks of an item: such an expiry date, and the home if one is given.
abbrev pub IsDue : Registration → InventoryItem → Type 0
IsDue r x =
    ((d : ℕ) × (x.expiry_date ≡ some d) × IsExpiring r d)
    × ((r.home_id ≡ none) ⊎ (r.home_id ≡ some x.home_id))

alert-type_cases : (t : InventoryAlertType) → (t ≡ expired) ⊎ (t ≡ expiring_soon)
alert-type_cases expired = inl refl
alert-type_cases expiring_soon = inr refl

expires-IsExpiring : (r : Registration) (d : ℕ) → (expires r (some d) ≡ true) ↔ IsExpiring r d
expires-IsExpiring r d = elim (alert-type_cases r.alert_type) [
  | inl e ↦ rw e (
    λ h. inl (refl, ground (arith, h)),
    λ h. elim h [ inl (q, k) ↦ ground (arith, k) | inr (q, k, l) ↦ cc (q) ],
  )
  | inr e ↦ rw e (
    λ h. inr (refl, ground (arith, h), ground (arith, h)),
    λ h. elim h [ inl (q, k) ↦ cc (q) | inr (q, k, l) ↦ ground (arith, k, l) ],
  )
]

in_home_iff : (o : Option ℕ) (h : ℕ) → (in_home o h ≡ true) ↔ ((o ≡ none) ⊎ (o ≡ some h))
in_home_iff none h = (λ _. inl refl, λ _. refl)
in_home_iff (some v) h = (
  λ e. inr (ap some (sym ((==_iff h v).0 e))),
  λ e. elim e [ inl q ↦ cc (q) | inr q ↦ ground (arith, q) ],
)

due-candidate : (r : Registration) (x : InventoryItem) → IsDue r x → is_candidate r x ≡ true
unfolding is_candidate
due-candidate r x ((d, here, when), home) =
    let e : expires r (some d) ≡ true = (expires-IsExpiring r d).1 when in
    let k = (in_home_iff r.home_id x.home_id).1 home in rw (is_candidate, here, e, k) refl

candidate-IsDue : (r : Registration) (x : InventoryItem) → is_candidate r x ≡ true → IsDue r x
unfolding is_candidate
candidate-IsDue r x e = elim (Option-cases x.expiry_date) [
  | inl h ↦ cc (rw (is_candidate, h) at e)
  | inr (d, h) ↦
      let g : expires r (some d) && in_home r.home_id x.home_id ≡ true =
        rw (is_candidate, h) at e in
      (
        (d, h, (expires-IsExpiring r d).0 (ground (arith, g))),
        (in_home_iff r.home_id x.home_id).0 (ground (arith, g)),
      )
]

mem-take : (n : ℕ) (l : List InventoryItem) (x : InventoryItem) → Memᴰ x (take n l) → Memᴰ x l
mem-take zero l x m = elim m [ ]
mem-take (suc n) [] x m = elim m [ ]
mem-take (suc n) (y ∷ l) x (head q) = head q
mem-take (suc n) (y ∷ l) x (tail m) = tail (mem-take n l x m)

pub candidate-item :
    (r : Registration) (items : List InventoryItem) (i : ℕ)
    → Memᴰ i (candidate_ids r items)
    → (x : InventoryItem) × Memᴰ x items × IsDue r x × (i ≡ x.id)
unfolding candidate_ids
candidate-item r items i m =
    let due = sort_by is_earlier (select (is_candidate r) items) in
    let (x, n, q) = Memᴰ.of_map item_key (take r.limit due) m in
    let (k, c) =
      mem-select (is_candidate r) items x (mem-sort_by is_earlier _ x (mem-take r.limit due x n)) in
    (x, k, candidate-IsDue r x c, sym q)

-- Within the limit, every item that is due is a candidate.
pub item-candidate :
    (r : Registration) (items : List InventoryItem) (x : InventoryItem)
    → length (select (is_candidate r) items) ≤ r.limit
    → Memᴰ x items
    → IsDue r x
    → Memᴰ x.id (candidate_ids r items)
unfolding candidate_ids
item-candidate r items x room m due =
    let rows = select (is_candidate r) items in
    let all =
      take_all r.limit (sort_by is_earlier rows)
        (let n = length-sort_by is_earlier rows in omega (arith, n, room)) in
    rw all (
      Memᴰ.map item_key (
        sort_by-mem is_earlier rows x
          (select-mem (is_candidate r) items x m (due-candidate r x due))))
