-- ===== src/Products/Catalog/Images.antt =====
-- The image of a candidate: `_extract_front_image_url` of
-- app/integrations/product_catalog/open_food_facts.py.
use family_inventory.Prelude.{
  ◌≡◌, arith, inl, inr, String, true, false, Option, none, some, str_eq, Bool-cases,
}
use family_inventory.Notifications.Result.{ok}
use family_inventory.Products.Catalog.{
  Json, Fields, object, string, null, boolean, number, array, end, field, get, is_truthy,
  url_of_size, url_of_language, url_of_values, url_of_type, or_else, extract_front_image_url,
  url_text,
}

-- A text that is there is not empty.
abbrev pub IsFilled : Option String → Type 0
IsFilled none = Unit
IsFilled (some s) = str_eq s "" ≡ false

-- An image that is found has a value that is true.
abbrev pub IsShown : Option Json → Type 0
IsShown none = Unit
IsShown (some url) = is_truthy url ≡ true

size-IsShown : (sizes : Fields) → IsShown (url_of_size sizes)
size-IsShown sizes = elim (Bool-cases (is_truthy (get "400" sizes))) [
  | inl e ↦ rw e (e)
  | inr e ↦ elim (Bool-cases (is_truthy (get "200" sizes))) [
    | inl f ↦ rw (e, f) (f)
    | inr f ↦ elim (Bool-cases (is_truthy (get "100" sizes))) [
      | inl g ↦ rw (e, f, g) (g)
      | inr g ↦ rw (e, f, g) tt
    ]
  ]
]

language-IsShown : (v : Json) → IsShown (url_of_language v)
language-IsShown (object sizes) = size-IsShown sizes
language-IsShown _ = tt

or_else-IsShown : (a b : Option Json) → IsShown a → IsShown b → IsShown (or_else a b)
or_else-IsShown none b x y = y
or_else-IsShown (some url) b x y = x

values-IsShown : (fields : Fields) → IsShown (url_of_values fields)
values-IsShown end = tt
values-IsShown (field k v fields) =
    or_else-IsShown (url_of_language v) (url_of_values fields) (language-IsShown v)
      (values-IsShown fields)

type-IsShown : (v : Json) → IsShown (url_of_type v)
type-IsShown (object fields) =
    or_else-IsShown (url_of_language (get "best" fields)) (url_of_values fields)
      (language-IsShown (get "best" fields)) (values-IsShown fields)
type-IsShown _ = tt

pub image-IsShown : (images : Option Fields) → IsShown (extract_front_image_url images)
unfolding extract_front_image_url
image-IsShown none = tt
image-IsShown (some fields) = type-IsShown (get "front" fields)

pub url-IsFilled :
    (url : Option Json) (image : Option String)
    → IsShown url
    → url_text url ≡ ok image
    → IsFilled image
url-IsFilled none none shown e = tt
url-IsFilled none (some s) shown e = cc (e)
url-IsFilled (some url) none shown e = tt
url-IsFilled (some null) (some s) shown e = cc (shown)
url-IsFilled (some (boolean b)) (some s) shown e = cc (e)
url-IsFilled (some (number b)) (some s) shown e = cc (e)
url-IsFilled (some (string t)) (some s) shown e = let h : t ≡ s = cc (e) in ground (arith, shown, h)
url-IsFilled (some (array b)) (some s) shown e = cc (e)
url-IsFilled (some (object fields)) (some s) shown e = cc (e)
