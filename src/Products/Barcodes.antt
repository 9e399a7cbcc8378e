-- ===== src/Products/Barcodes.antt =====
-- One product per barcode: app/apis/product/repository.py and service.py.
use family_inventory.Prelude.{
  ◌≡◌, refl, sym, ◌∙◌, String, Bool, true, false, not, ◌&&◌, ◌||◌, Option, none, some, [], ◌∷◌,
  arith, Bool-cases, inl, inr, ◌⊎◌, exists, str_eq, eq_refl, eq_iff, ap,
}
use mathlib.Core.Path.{subst}
use family_inventory.Notifications.Result.{ok}
use family_inventory.Homes.Members.{find}
use family_inventory.Products.{
  Product, Products, Scan, has_barcode, scanned, find_or_create_by_barcode, get_by_barcode, lookup,
  Answer, local,
}

-- No two rows have the same barcode; rows without one are free.
unfoldable pub IsBarcoded : Products → Type 0
IsBarcoded [] = Unit
IsBarcoded (r ∷ t) =
    (elim r.barcode [ none ↦ false | some b ↦ exists (has_barcode b) t ] ≡ false) × IsBarcoded t

exists-find :
    (q : Product → Bool) (t : Products) → exists q t ≡ true → (r : Product) × (find q t ≡ some r)
exists-find q [] h = cc
exists-find q (r ∷ t) h = elim (Bool-cases (q r)) [
  | inl e ↦ (r, rw e refl)
  | inr e ↦ let (x, g) = exists-find q t (ground (arith, e, h)) in (x, rw e g)
]

-- The row of a barcode, whatever its state, in a lookup that skips none.
any_state :
    (barcode : String) (t : Products)
    → find (λ r. has_barcode barcode r && (true || r.is_active)) t ≡ find (has_barcode barcode) t
any_state barcode [] = refl
any_state barcode (r ∷ t) = ground (arith, any_state barcode t)

-- A scan finds or creates: it never raises.
pub scan_total :
    (v : Scan) (t : Products)
    → (t' : Products) × (r : Product) × (created : Bool) × (find_or_create_by_barcode v t
        ≡ ok (t', (r, created)))
      × (find (has_barcode v.barcode) t' ≡ some r)
      × (created ≡ not (exists (has_barcode v.barcode) t))
unfolding find_or_create_by_barcode get_by_barcode
scan_total v t = elim (Bool-cases (exists (has_barcode v.barcode) t)) [
  | inl e ↦
      let (r, g) = exists-find (has_barcode v.barcode) t e in
      let s = any_state v.barcode t ∙ g in
      (t, r, false, rw (find_or_create_by_barcode, e, get_by_barcode, s) refl, g, rw e refl)
  | inr e ↦ (
    scanned v ∷ t,
    scanned v,
    true,
    rw (find_or_create_by_barcode, e) refl,
    rw (eq_refl v.barcode) refl,
    rw e refl,
  )
]

find-exists :
    (q : Product → Bool) (t : Products) (r : Product) → find q t ≡ some r → exists q t ≡ true
find-exists q [] r h = cc
find-exists q (x ∷ t) r h = ground (arith, find-exists q t r)

scan-found :
    (v : Scan) (t : Products) (r : Product)
    → find (has_barcode v.barcode) t ≡ some r
    → find_or_create_by_barcode v t ≡ ok (t, (r, false))
unfolding find_or_create_by_barcode get_by_barcode
scan-found v t r g =
    let e = find-exists (has_barcode v.barcode) t r g in
    let s = any_state v.barcode t ∙ g in rw (find_or_create_by_barcode, e, get_by_barcode, s) refl

-- Scanning a barcode succeeds, and scanning it again, also with other values, gives the row of the
-- first scan and changes nothing.
pub scan_again :
    (v w : Scan) (t : Products)
    → str_eq w.barcode v.barcode ≡ true
    → (t' : Products) × (r : Product) × (created : Bool) × (find_or_create_by_barcode v t
        ≡ ok (t', (r, created)))
      × (find_or_create_by_barcode w t' ≡ ok (t', (r, false)))
scan_again v w t same =
    let (t', r, created, done, g, k) = scan_total v t in
    let b : w.barcode ≡ v.barcode = (eq_iff w.barcode v.barcode).0 same in
    (t', r, created, done, scan-found w t' r (ap (λ b. find (has_barcode b) t') b ∙ g))

scan-new :
    (v : Scan) (t : Products)
    → exists (has_barcode v.barcode) t ≡ false
    → find_or_create_by_barcode v t ≡ ok (scanned v ∷ t, (scanned v, true))
unfolding find_or_create_by_barcode
scan-new v t e = rw (find_or_create_by_barcode, e) refl

-- The rows after a scan.
pub scan-rows :
    (v : Scan) (t : Products) (x : Products × (Product × Bool))
    → find_or_create_by_barcode v t ≡ ok x
    → (t ≡ x.0) ⊎ (scanned v ∷ t ≡ x.0)
scan-rows v t x done = elim (Bool-cases (exists (has_barcode v.barcode) t)) [
  | inl e ↦
      let (r, g) = exists-find (has_barcode v.barcode) t e in inl (cc (done, scan-found v t r g))
  | inr e ↦ inr (cc (done, scan-new v t e))
]

-- A scan that succeeds keeps the barcodes of the catalog pairwise different.
pub scan-IsBarcoded :
    (v : Scan) (t t' : Products) (r : Product) (created : Bool)
    → IsBarcoded t
    → find_or_create_by_barcode v t ≡ ok (t', (r, created))
    → IsBarcoded t'
unfolding IsBarcoded
scan-IsBarcoded v t t' r created h done = elim (Bool-cases (exists (has_barcode v.barcode) t)) [
  | inl e ↦
      let (x, g) = exists-find (has_barcode v.barcode) t e in
      let same : t ≡ t' = cc (done, scan-found v t x g) in subst IsBarcoded same h
  | inr e ↦
      let same : scanned v ∷ t ≡ t' = cc (done, scan-new v t e) in subst IsBarcoded same (e, h)
]

lookup-active :
    (Candidate : Type 0) (catalog : Option (String → Answer Candidate)) (barcode : String)
    (t : Products) (r : Product)
    → get_by_barcode barcode false t ≡ some r
    → lookup Candidate catalog barcode t ≡ ok (local r)
unfolding lookup
lookup-active C catalog barcode t r e = rw (lookup, e) refl

-- A product that a scan created is what a lookup of its barcode gives from then on, from the local
-- catalog and whatever the provider would answer.
pub created_found :
    (Candidate : Type 0) (catalog : Option (String → Answer Candidate)) (v : Scan) (t t' : Products)
    (r : Product)
    → find_or_create_by_barcode v t ≡ ok (t', (r, true))
    → (lookup Candidate catalog v.barcode t' ≡ ok (local r)) × (r.name ≡ v.name)
unfolding get_by_barcode
created_found C catalog v t t' r done = elim (Bool-cases (exists (has_barcode v.barcode) t)) [
  | inl e ↦ let (x, g) = exists-find (has_barcode v.barcode) t e in cc (done, scan-found v t x g)
  | inr e ↦
      let rows : scanned v ∷ t ≡ t' = cc (done, scan-new v t e) in
      let row : scanned v ≡ r = cc (done, scan-new v t e) in
      let there : get_by_barcode v.barcode false (scanned v ∷ t) ≡ some (scanned v) =
        rw (eq_refl v.barcode) refl in
      (
        subst (λ x. lookup C catalog v.barcode x ≡ ok (local r)) rows
            (lookup-active C catalog v.barcode (scanned v ∷ t) (scanned v) there
              ∙ ap (λ x. ok (local x)) row),
        ap (λ (x : Product). x.name) (sym row),
      )
]
