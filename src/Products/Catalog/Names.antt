-- ===== src/Products/Catalog/Names.antt =====
-- The name of a product in a response: `_OpenFoodFactsProduct` of
-- app/integrations/product_catalog/open_food_facts.py.
use family_inventory.Prelude.{
  ◌≡◌, refl, inl, inr, String, Option, none, some, Bool-cases, if◌then◌else◌,
}
use mathlib.Core.Path.{subst}
use family_inventory.Notifications.Result.{Result, ok, err, ◌>>=◌}
use family_inventory.Products.Catalog.{
  Json, Fields, object, string, null, boolean, number, array, get, is_truthy, OpenFoodFactsProduct,
  optional_text, optional_dict, model_validate, validation_error,
}

-- What follows of a chain that succeeds, from its first call and the rest.
pub chain-ok :
    {T U P : Type 0} (m : Result T) (next : T → Result U) (u : U)
    → (m >>= next) ≡ ok u
    → ((t : T) → m ≡ ok t → next t ≡ ok u → P)
    → P
chain-ok (err e) next u h k = cc (h)
chain-ok (ok t) next u h k = k t refl h

text-name : (v : Json) (name : String) → optional_text v ≡ ok (some name) → v ≡ string name
text-name null name e = cc (e)
text-name (string s) name e = cc (e)
text-name (boolean b) name e = cc (e)
text-name (number b) name e = cc (e)
text-name (array b) name e = cc (e)
text-name (object fields) name e = cc (e)

abbrev pub HasName : Json → Option String → Type 0
HasName v none = Unit
HasName v (some name) =
    (product : Fields) × (v ≡ object product) × (get "product_name" product ≡ string name)

field-HasName :
    (product : Fields) (name : Option String)
    → optional_text (get "product_name" product) ≡ ok name
    → HasName (object product) name
field-HasName product none e = tt
field-HasName product (some name) e = (product, refl, text-name (get "product_name" product) name e)

made-HasName :
    (product : Fields) (raw made : OpenFoodFactsProduct)
    → optional_text (get "product_name" product) ≡ ok made.product_name
    → ◌≡◌ {A = Result OpenFoodFactsProduct} (ok made) (ok raw)
    → HasName (object product) raw.product_name
made-HasName product raw made named done =
    let same : made ≡ raw = cc (done) in
    field-HasName product raw.product_name (
      subst
        (λ (x : OpenFoodFactsProduct).
          optional_text (get "product_name" product) ≡ ok x.product_name)
        same named)

empty-HasName :
    (v : Json) (raw : OpenFoodFactsProduct)
    → (if is_truthy v
        then err validation_error
        else ok record {
          product_name = none;
          brands = none;
          categories = none;
          selected_images = none;
        })
      ≡ ok raw
    → HasName v raw.product_name
empty-HasName v raw e = elim (Bool-cases (is_truthy v)) [
  | inl t ↦ cc (e, t)
  | inr f ↦
      let same : record {
        product_name = none;
        brands = none;
        categories = none;
        selected_images = none;
      }
          ≡ raw =
        cc (e, f) in
      subst (λ (x : OpenFoodFactsProduct). HasName v x.product_name) same tt
]

pub model-HasName :
    (v : Json) (raw : OpenFoodFactsProduct) → model_validate v ≡ ok raw → HasName v raw.product_name
unfolding model_validate
model-HasName (object product) raw e =
    chain-ok (optional_text (get "product_name" product)) _ raw e λ name named rest.
      chain-ok (optional_text (get "brands" product)) _ raw rest λ brands _ rest'.
        chain-ok (optional_text (get "categories" product)) _ raw rest' λ categories _ rest''.
          chain-ok (optional_dict (get "selected_images" product)) _ raw rest''
            λ images _ done. made-HasName product raw _ named done
model-HasName null raw e = empty-HasName null raw e
model-HasName (boolean b) raw e = empty-HasName (boolean b) raw e
model-HasName (number b) raw e = empty-HasName (number b) raw e
model-HasName (string s) raw e = empty-HasName (string s) raw e
model-HasName (array b) raw e = empty-HasName (array b) raw e
