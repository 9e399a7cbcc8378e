-- ===== src/Products/Catalog/Justified.antt =====
-- The lookup of a barcode with the outside catalog: `ProductLookupService.lookup` of
-- app/apis/product/service.py with app/integrations/product_catalog/open_food_facts.py.
use family_inventory.Prelude.{
  ◌≡◌, inl, inr, ◌⊎◌, String, true, false, Option, none, some, str_eq, Bool-cases, Option-cases,
}
use mathlib.Core.Path.{subst}
use family_inventory.Notifications.Errors.{Exception}
use family_inventory.Notifications.Result.{ok, err, Result-cases}
use family_inventory.Products.{
  Products, ProductLookupResult, local, external, not_found, provider_unavailable, of_answer,
  lookup, get_by_barcode,
}
use family_inventory.Products.Catalog.{
  Json, Response, responded, ProductCandidate, lookup_by_barcode,
}
use family_inventory.Products.Catalog.Trusted.{IsTrusted, answer-IsTrusted}

-- What a result of `ProductLookupService.lookup` says of the table and of the response to its
-- request.
abbrev pub IsJustified :
    Response → String → Products → ProductLookupResult ProductCandidate → Type 0
IsJustified response barcode t (local r) = get_by_barcode barcode false t ≡ some r
IsJustified response barcode t (external c) =
    (get_by_barcode barcode false t ≡ none) × IsTrusted response barcode (some c)
IsJustified response barcode t not_found =
    (get_by_barcode barcode false t ≡ none)
    × (((body : Option Json) × (response ≡ responded 404 body)) ⊎ IsTrusted response barcode none)
IsJustified response barcode t provider_unavailable =
    (get_by_barcode barcode false t ≡ none)
    × ((exc : Exception) × (lookup_by_barcode response barcode ≡ err exc)
        × (str_eq exc.type_name "ProductCatalogUnavailable" ≡ true))

asked-IsJustified :
    (response : Response) (barcode : String) (t : Products)
    (result : ProductLookupResult ProductCandidate)
    → get_by_barcode barcode false t ≡ none
    → of_answer ProductCandidate (lookup_by_barcode response barcode) ≡ ok result
    → IsJustified response barcode t result
asked-IsJustified response barcode t result missing e =
    elim (Result-cases (lookup_by_barcode response barcode)) [
      | inl (none, h) ↦
          let same : not_found ≡ result = cc (rw h at e) in
          subst (IsJustified response barcode t) same (
            missing,
            elim (answer-IsTrusted response barcode none h) [
              | inl (body, r, _) ↦ inl (body, r)
              | inr trusted ↦ inr trusted
            ],
          )
      | inl (some c, h) ↦
          let same : external c ≡ result = cc (rw h at e) in
          subst (IsJustified response barcode t) same (
            missing,
            elim (answer-IsTrusted response barcode (some c) h) [
              | inl (body, _, impossible) ↦ cc (impossible)
              | inr trusted ↦ trusted
            ],
          )
      | inr (exc, h) ↦ elim (Bool-cases (str_eq exc.type_name "ProductCatalogUnavailable")) [
        | inl caught ↦
            let same : provider_unavailable ≡ result = cc (rw (h, caught) at e) in
            subst (IsJustified response barcode t) same (missing, (exc, h, caught))
        | inr escaped ↦ cc (rw (h, escaped) at e)
      ]
    ]

-- When `ProductLookupService.lookup` with the Open Food Facts client returns, its result is
-- justified. A local product is the active row of the barcode. Otherwise there is no such row, and:
-- a candidate rests on a response with status 200 whose body is an object with no untrustworthy
-- status, and has the barcode that was asked for, the name of the product in that body, which is
-- not empty, and no image or one that is not an empty text; not found rests on a 404 or on such a
-- body; and the provider is reported as unavailable only after the client raised
-- ProductCatalogUnavailable.
pub lookup-IsJustified :
    (ask : String → Response) (barcode : String) (t : Products)
    (result : ProductLookupResult ProductCandidate)
    → lookup ProductCandidate (some (λ b. lookup_by_barcode (ask b) b)) barcode t ≡ ok result
    → IsJustified (ask barcode) barcode t result
unfolding lookup
lookup-IsJustified ask barcode t result e = elim (Option-cases (get_by_barcode barcode false t)) [
  | inl missing ↦
      asked-IsJustified (ask barcode) barcode t result missing (rw (lookup, missing) at e)
  | inr (r, found) ↦
      let same : local r ≡ result = cc (rw (lookup, found) at e) in
      subst (IsJustified (ask barcode) barcode t) same found
]
