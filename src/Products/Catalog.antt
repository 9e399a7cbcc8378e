-- ===== src/Products/Catalog.antt =====
-- The catalog of Open Food Facts: app/integrations/product_catalog/open_food_facts.py, with
-- schemas.py and exceptions.py beside it. The HTTP exchange is a parameter, as the response it gives.
pub mod Images
pub mod Names
pub mod Trusted
pub mod Justified
use family_inventory.Prelude.{
  ℕ, String, Bool, true, false, not, ◌||◌, Option, none, some, str_eq, ◌==◌, if◌then◌else◌,
}
use family_inventory.Notifications.Errors.{Exception}
use family_inventory.Notifications.Result.{Result, ok, err, ◌>>=◌}
use family_inventory.Homes.Members.{raise}

-- What the client reads of JSON: of a number whether it is not zero, of an array whether it has
-- items.
mutual
  pub data Json : Type 0 where
    null : Json
    boolean : Bool → Json
    number : Bool → Json
    string : String → Json
    array : Bool → Json
    object : Fields → Json

  pub data Fields : Type 0 where
    end : Fields
    field : String → Json → Fields → Fields

-- `fields.get(k)`
abbrev pub get : String → Fields → Json
get k end = null
get k (field j v fields) = if str_eq j k then v else get k fields

-- `bool(v)`
abbrev pub is_truthy : Json → Bool
is_truthy null = false
is_truthy (boolean b) = b
is_truthy (number b) = b
is_truthy (string s) = not (str_eq s "")
is_truthy (array b) = b
is_truthy (object end) = false
is_truthy (object (field k v fields)) = true

-- What asking gives: an HTTPError, or a response with its status and the JSON of its body, none
-- where `json` raises.
pub data Response : Type 0 where
  http_error : Response
  responded : (status_code : ℕ) (body : Option Json) → Response

pub record OpenFoodFactsProduct : Type 0 where
  pub product_name : Option String
  pub brands : Option String
  pub categories : Option String
  pub selected_images : Option Fields

pub record ProductCandidate : Type 0 where
  pub barcode : String
  pub name : String
  pub brand : Option String
  pub external_category : Option String
  pub image_url : Option String
  pub source : String

abbrev pub unavailable : Exception
unavailable = raise "ProductCatalogUnavailable" "openfoodfacts"

abbrev pub validation_error : Exception
validation_error = raise "ValidationError" ""

-- The first of `_IMAGE_SIZES_BY_PREFERENCE` with a truthy value, of one language.
abbrev pub url_of_size : Fields → Option Json
url_of_size sizes =
    if is_truthy (get "400" sizes)
    then some (get "400" sizes)
    else if is_truthy (get "200" sizes)
    then some (get "200" sizes)
    else if is_truthy (get "100" sizes)
    then some (get "100" sizes)
    else none

-- one turn of the loop over the languages
abbrev pub url_of_language : Json → Option Json
url_of_language (object sizes) = url_of_size sizes
url_of_language _ = none

abbrev pub or_else : Option Json → Option Json → Option Json
or_else none rest = rest
or_else (some url) rest = some url

-- the loop over `by_language.values()`
abbrev pub url_of_values : Fields → Option Json
url_of_values end = none
url_of_values (field k v fields) = or_else (url_of_language v) (url_of_values fields)

abbrev pub url_of_type : Json → Option Json
url_of_type (object by_language) =
    or_else (url_of_language (get "best" by_language)) (url_of_values by_language)
url_of_type _ = none

unfoldable pub extract_front_image_url : Option Fields → Option Json
extract_front_image_url none = none
extract_front_image_url (some selected_images) = url_of_type (get "front" selected_images)

-- A field `str | None` of a model.
abbrev pub optional_text : Json → Result (Option String)
optional_text null = ok none
optional_text (string s) = ok (some s)
optional_text _ = err validation_error

-- A field `dict | None` of a model.
abbrev pub optional_dict : Json → Result (Option Fields)
optional_dict null = ok none
optional_dict (object fields) = ok (some fields)
optional_dict _ = err validation_error

-- `_OpenFoodFactsProduct.model_validate(product or {})`
unfoldable pub model_validate : Json → Result OpenFoodFactsProduct
model_validate (object fields) = do
  product_name ← optional_text (get "product_name" fields)
  brands ← optional_text (get "brands" fields)
  categories ← optional_text (get "categories" fields)
  selected_images ← optional_dict (get "selected_images" fields)
  ok record {
    product_name = product_name;
    brands = brands;
    categories = categories;
    selected_images = selected_images;
  }
model_validate product =
    if is_truthy product
    then err validation_error
    else ok record { product_name = none; brands = none; categories = none; selected_images = none }

-- `status in _UNTRUSTWORTHY_STATUSES`, which hashes the value
unfoldable pub is_untrustworthy : Json → Result Bool
is_untrustworthy (string s) = ok (str_eq s "failure" || str_eq s "success_with_errors")
is_untrustworthy (array b) = err (raise "TypeError" "unhashable type: 'list'")
is_untrustworthy (object fields) = err (raise "TypeError" "unhashable type: 'dict'")
is_untrustworthy _ = ok false

-- `ProductCandidate(..)`, whose `image_url` is validated
abbrev pub candidate_of : String → String → OpenFoodFactsProduct → Option String → ProductCandidate
candidate_of barcode name raw image_url = record {
  barcode = barcode;
  name = name;
  brand = raw.brands;
  external_category = raw.categories;
  image_url = image_url;
  source = "openfoodfacts";
}

abbrev pub url_text : Option Json → Result (Option String)
url_text none = ok none
url_text (some url) = optional_text url

-- the candidate of a product, given its name
unfoldable pub candidate :
    String → OpenFoodFactsProduct → Option String → Result (Option ProductCandidate)
candidate barcode raw none = ok none
candidate barcode raw (some name) = if str_eq name "" then ok none else (do
  image_url ← url_text (extract_front_image_url raw.selected_images)
  ok (some (candidate_of barcode name raw image_url)))

-- a ValidationError of the product, as the except clause turns it
abbrev pub or_unavailable : Result OpenFoodFactsProduct → Result OpenFoodFactsProduct
or_unavailable (ok raw) = ok raw
or_unavailable (err exc) = err unavailable

-- The body of a response with status 200.
unfoldable pub read_body : String → Option Json → Result (Option ProductCandidate)
read_body barcode (some (object fields)) = do
  refused ← is_untrustworthy (get "status" fields)
  if refused then err unavailable else (do
    raw ← or_unavailable (model_validate (get "product" fields))
    candidate barcode raw raw.product_name)
read_body barcode _ = err unavailable

-- `lookup_by_barcode`, given the response to its request
unfoldable pub lookup_by_barcode : Response → String → Result (Option ProductCandidate)
lookup_by_barcode http_error barcode = err unavailable
lookup_by_barcode (responded status_code body) barcode =
    if status_code == 404
    then ok none
    else if not (status_code == 200)
    then err unavailable
    else read_body barcode body
