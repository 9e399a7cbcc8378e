-- ===== src/Products/Catalog/Trusted.antt =====
-- What an answer of the outside catalog rests on: `lookup_by_barcode` of
-- app/integrations/product_catalog/open_food_facts.py.
use family_inventory.Prelude.{
  ◌≡◌, refl, inl, inr, ◌⊎◌, String, Bool, true, false, Option, none, some, str_eq, ◌==◌, Bool-cases,
  ==_iff, if◌then◌else◌,
}
use mathlib.Core.Path.{subst}
use family_inventory.Notifications.Errors.{Exception}
use family_inventory.Notifications.Result.{Result, ok, err}
use family_inventory.Products.Catalog.{
  Json, Fields, object, string, null, boolean, number, array, get, Response, http_error, responded,
  ProductCandidate, OpenFoodFactsProduct, extract_front_image_url, model_validate, is_untrustworthy,
  url_text, candidate, or_unavailable, read_body, lookup_by_barcode, unavailable,
}
use family_inventory.Products.Catalog.Images.{IsFilled, image-IsShown, url-IsFilled}
use family_inventory.Products.Catalog.Names.{chain-ok, HasName, model-HasName}

-- What a candidate owes to the body of its response: the barcode that was asked for, the name of the
-- product, which is not empty, and an image that is not an empty text.
abbrev pub IsAbout : String → Fields → Option ProductCandidate → Type 0
IsAbout barcode fields none = Unit
IsAbout barcode fields (some c) =
    (c.barcode ≡ barcode)
    × (str_eq c.name "" ≡ false)
    × ((product : Fields) × (get "product" fields ≡ object product)
        × (get "product_name" product ≡ string c.name))
    × IsFilled c.image_url

made-IsAbout :
    (barcode name : String) (fields : Fields) (made : ProductCandidate)
    (a : Option ProductCandidate)
    → IsAbout barcode fields (some made)
    → ◌≡◌ {A = Result (Option ProductCandidate)} (ok (some made)) (ok a)
    → IsAbout barcode fields a
made-IsAbout barcode name fields made a about done =
    let same : some made ≡ a = cc (done) in subst (λ x. IsAbout barcode fields x) same about

candidate-IsAbout :
    (barcode : String) (fields : Fields) (raw : OpenFoodFactsProduct) (name : Option String)
    (a : Option ProductCandidate)
    → HasName (get "product" fields) name
    → candidate barcode raw name ≡ ok a
    → IsAbout barcode fields a
unfolding candidate
candidate-IsAbout barcode fields raw none a named e =
    let same : none ≡ a = cc (e) in subst (λ x. IsAbout barcode fields x) same tt
candidate-IsAbout barcode fields raw (some name) a named e = elim (Bool-cases (str_eq name "")) [
  | inl t ↦ let same : none ≡ a = cc (e, t) in subst (λ x. IsAbout barcode fields x) same tt
  | inr f ↦
      chain-ok (url_text (extract_front_image_url raw.selected_images)) _ a (rw f at e)
        λ image shown done.
          made-IsAbout barcode name fields _ a
            (
              refl,
              f,
              named,
              url-IsFilled (extract_front_image_url raw.selected_images) image
                  (image-IsShown raw.selected_images) shown,
            )
            done
]

-- What an answer of the provider rests on: a body with status 200, an object with a status that is
-- not one of the untrustworthy ones.
abbrev pub IsTrusted : Response → String → Option ProductCandidate → Type 0
IsTrusted response barcode a =
    (fields : Fields) × (response ≡ responded 200 (some (object fields)))
    × (is_untrustworthy (get "status" fields) ≡ ok false)
    × IsAbout barcode fields a

not_refused :
    {T : Type 0} (exc : Exception) (refused : Bool) (m : Result T) (a : T)
    → (if refused then err exc else m) ≡ ok a
    → (refused ≡ false) × (m ≡ ok a)
not_refused exc true m a e = cc (e)
not_refused exc false m a e = (refl, e)

valid_model :
    (m : Result OpenFoodFactsProduct) (raw : OpenFoodFactsProduct)
    → or_unavailable m ≡ ok raw
    → m ≡ ok raw
valid_model (ok made) raw e = e
valid_model (err exc) raw e = cc (e)

body-IsTrusted :
    (barcode : String) (body : Option Json) (a : Option ProductCandidate)
    → read_body barcode body ≡ ok a
    → IsTrusted (responded 200 body) barcode a
unfolding read_body
body-IsTrusted barcode none a e = cc (e)
body-IsTrusted barcode (some (object fields)) a e =
    chain-ok (is_untrustworthy (get "status" fields)) _ a e λ refused status rest.
      let (fine, read) = not_refused unavailable refused _ a rest in
      chain-ok (or_unavailable (model_validate (get "product" fields))) _ a read λ raw valid done. (
        fields,
        refl,
        rw fine at status,
        candidate-IsAbout barcode fields raw raw.product_name a
            (model-HasName (get "product" fields) raw
              (valid_model (model_validate (get "product" fields)) raw valid))
            done,
      )
body-IsTrusted barcode (some null) a e = cc (e)
body-IsTrusted barcode (some (boolean b)) a e = cc (e)
body-IsTrusted barcode (some (number b)) a e = cc (e)
body-IsTrusted barcode (some (string s)) a e = cc (e)
body-IsTrusted barcode (some (array b)) a e = cc (e)

-- An answer is that there is no product, after a 404, or rests on a trusted body.
pub answer-IsTrusted :
    (response : Response) (barcode : String) (a : Option ProductCandidate)
    → lookup_by_barcode response barcode ≡ ok a
    → ((body : Option Json) × (response ≡ responded 404 body) × (a ≡ none))
      ⊎ IsTrusted response barcode a
unfolding lookup_by_barcode
answer-IsTrusted http_error barcode a e = cc (e)
answer-IsTrusted (responded n body) barcode a e = elim (Bool-cases (n == 404)) [
  | inl t ↦ let n_is : n ≡ 404 = (==_iff n 404).0 t in inl (body, rw n_is refl, cc (e, t))
  | inr f ↦ elim (Bool-cases (n == 200)) [
    | inl g ↦
        let n_is : n ≡ 200 = (==_iff n 200).0 g in
        let read : read_body barcode body ≡ ok a = rw (f, g) at e in
        inr (rw n_is (body-IsTrusted barcode body a read))
    | inr h ↦ cc (e, f, h)
  ]
]
