-- ===== src/Products.antt =====
-- The shared catalog of products: app/apis/product/models.py, repository.py and service.py.
pub mod Barcodes
pub mod Catalog
use family_inventory.Prelude.{
  ℕ, String, Bool, true, false, not, ◌&&◌, ◌||◌, Option, none, some, List, [], ◌∷◌, ◌==◌, str_eq,
  if◌then◌else◌, is_none, exists, select, sort_by, take,
}
use family_inventory.Prelude.Table
use family_inventory.Notifications.Result.{Result, ok, err}
use family_inventory.Homes.Members.{find, raise}

pub record Product : Type 0 where
  pub id : ℕ
  pub name : String
  pub barcode : Option String
  pub brand : Option String
  pub external_category : Option String
  pub image_url : Option String
  pub is_active : Bool

abbrev pub Products : Type 0
Products = List Product

abbrev pub key : Product → ℕ
key r = r.id

-- `Product.barcode == barcode`, false for NULL
abbrev pub has_barcode : String → Product → Bool
has_barcode barcode r = elim r.barcode [ none ↦ false | some b ↦ str_eq b barcode ]

abbrev pub product_ids_contain : ℕ → List ℕ → Bool
product_ids_contain i ids = exists (λ k. k == i) ids

-- `get_many`
unfoldable pub get_many : List ℕ → Bool → Products → Products
get_many product_ids include_inactive t =
    select (λ r. product_ids_contain r.id product_ids && (include_inactive || r.is_active)) t

-- `get_by_id`
unfoldable pub get_by_id : ℕ → Bool → Products → Option Product
get_by_id product_id include_inactive t = elim (Table.get key product_id t) [
  | none ↦ none
  | some r ↦ if not include_inactive && not r.is_active then none else some r
]

-- `get_by_barcode`; the partial index makes the first row the only one.
unfoldable pub get_by_barcode : String → Bool → Products → Option Product
get_by_barcode barcode include_inactive t =
    find (λ r. has_barcode barcode r && (include_inactive || r.is_active)) t

-- `create`, which the index on the barcode can refuse
unfoldable pub create : Product → Products → Result Products
create product t =
    if elim product.barcode [ none ↦ false | some b ↦ exists (has_barcode b) t ]
    then err (raise "IntegrityError" "ix_product_barcode_unique")
    else ok (product ∷ t)

-- The values of an INSERT of a scanned product.
pub record Scan : Type 0 where
  pub id : ℕ
  pub barcode : String
  pub name : String
  pub brand : Option String
  pub external_category : Option String
  pub image_url : Option String

abbrev pub scanned : Scan → Product
scanned v = record {
  id = v.id;
  name = v.name;
  barcode = some v.barcode;
  brand = v.brand;
  external_category = v.external_category;
  image_url = v.image_url;
  is_active = true;
}

abbrev found : String → Products → Option Product → Result (Products × (Product × Bool))
found barcode t none = err (raise "RuntimeError" barcode)
found barcode t (some r) = ok (t, (r, false))

-- `find_or_create_by_barcode`: the row of the barcode, and whether it was created.
unfoldable pub find_or_create_by_barcode : Scan → Products → Result (Products × (Product × Bool))
unfolding get_by_barcode
find_or_create_by_barcode v t =
    if exists (has_barcode v.barcode) t
    then found v.barcode t (get_by_barcode v.barcode true t)
    else ok (scanned v ∷ t, (scanned v, true))

-- `search_by_name`: `ilike` is the match of ILIKE and `le` the order of names, of the database.
unfoldable pub search_by_name :
    (String → String → Bool) → (Product → Product → Bool) → String → ℕ → Bool → Products → Products
search_by_name ilike le query limit include_inactive t =
    take limit
      (sort_by le (select (λ r. ilike query r.name && (include_inactive || r.is_active)) t))

abbrev set_active : Bool → Product → Products → Products
set_active b product t =
    Table.update (λ r. r.id == product.id) (λ (r : Product). record r { is_active = b }) t

-- `deactivate`
unfoldable pub deactivate : Product → Products → Products
deactivate product t = set_active false product t

-- `reactivate`
unfoldable pub reactivate : Product → Products → Products
reactivate product t = set_active true product t

-- `ProductLookupResult`, by its source
pub data ProductLookupResult (Candidate : Type 0) : Type 0 where
  local : Product → ProductLookupResult Candidate
  external : Candidate → ProductLookupResult Candidate
  not_found provider_unavailable : ProductLookupResult Candidate

-- what a provider of a catalog answers
abbrev pub Answer : Type 0 → Type 0
Answer Candidate = Result (Option Candidate)

-- the end of `lookup`: only ProductCatalogUnavailable is caught
abbrev pub of_answer :
    (Candidate : Type 0) → Answer Candidate → Result (ProductLookupResult Candidate)
of_answer C (ok none) = ok not_found
of_answer C (ok (some candidate)) = ok (external candidate)
of_answer C (err exc) =
    if str_eq exc.type_name "ProductCatalogUnavailable" then ok provider_unavailable else err exc

-- `lookup`: the local catalog first, then the provider if there is one.
unfoldable pub lookup :
    (Candidate : Type 0)
    → Option (String → Answer Candidate)
    → String
    → Products
    → Result (ProductLookupResult Candidate)
unfolding get_by_barcode
lookup C catalog barcode t = elim (get_by_barcode barcode false t) [
  | some existing ↦ ok (local existing)
  | none ↦ elim catalog [ none ↦ ok not_found | some provider ↦ of_answer C (provider barcode) ]
]
